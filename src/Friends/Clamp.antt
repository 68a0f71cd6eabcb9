-- ===== src/Friends/Clamp.antt =====
-- engine/internal/syncengine/friends.go: the bounds on what a friend message may carry.
use syncy.Base.{
  ℕ, ◌≤◌, suc, Bytes, true, false, List, [], ◌∷◌, ◌++◌, ◌==◌, nat_eq, list_eq, ◌≡◌, inl, inr,
  length, arith, Bool-cases, ltb, length-append, All, All-append, length-take,
}
use syncy.Friends.{
  World, clamp_name, clamp_into, clamp_endpoints, max_endpoints, max_endpoint_len, max_name_len,
}

not_above : (a b : ℕ) → ltb a b ≡ false → b ≤ a
not_above a b h = ground arith

below-full :
    (out : List Bytes)
    → length out ≤ max_endpoints
    → (length out == max_endpoints) ≡ false
    → suc (length out) ≤ max_endpoints
below-full out h room = ground arith

length-clamp_name : (name : Bytes) → length (clamp_name name) ≤ 120
unfolding clamp_name
length-clamp_name name = elim (Bool-cases (ltb max_name_len (length name))) [
  | inl long ↦ rw long (omega (arith, length-take max_name_len name))
  | inr short ↦ rw short (not_above 120 (length name) short)
]

module _ (w : World) where
  abbrev pub Sound : Bytes → Type 0
  Sound ep = ((ep == []) ≡ false) × (length ep ≤ max_endpoint_len) × (w.host_port ep ≡ true)

  clamp_into-Sound :
      (out eps : List Bytes)
      → length out ≤ max_endpoints
      → All Sound out
      → (length (clamp_into w out eps) ≤ max_endpoints) × All Sound (clamp_into w out eps)
  unfolding clamp_into
  clamp_into-Sound out [] h all = (h, all)
  clamp_into-Sound out (ep ∷ eps) h all = elim (Bool-cases (length out == max_endpoints)) [
    | inl full ↦ rw full (h, all)
    | inr room ↦ elim (Bool-cases (ep == [])) [
      | inl empty ↦ rw (room, empty) (clamp_into-Sound out eps h all)
      | inr some_text ↦ elim (Bool-cases (ltb max_endpoint_len (length ep))) [
        | inl long ↦ rw (room, some_text, long) (clamp_into-Sound out eps h all)
        | inr short ↦ elim (Bool-cases (w.host_port ep)) [
          | inr no_port ↦ rw (room, some_text, short, no_port) (clamp_into-Sound out eps h all)
          | inl port ↦
              let fits : length ep ≤ max_endpoint_len =
                not_above max_endpoint_len (length ep) short in
              let more : length (out ++ ep ∷ []) ≤ max_endpoints =
                omega (arith, length-append out (ep ∷ []), below-full out h room) in
              rw (room, some_text, short, port)
                (clamp_into-Sound (out ++ ep ∷ []) eps more
                  (All-append Sound out (ep ∷ []) all ((some_text, fits, port), tt)))
        ]
      ]
    ]
  ]

  -- Whatever endpoints a friend message carries, at most 16 are kept, and each of them is not
  -- empty, has at most 128 bytes, and is a host and a port; and of a name at most 120 bytes are kept.
  pub clamp_endpoints-Sound :
      (name : Bytes) (eps : List Bytes)
      → (length (clamp_endpoints w eps) ≤ 16)
        × All Sound (clamp_endpoints w eps)
        × (length (clamp_name name) ≤ 120)
  unfolding clamp_endpoints
  clamp_endpoints-Sound name eps =
      let p = clamp_into-Sound [] eps (omega arith) tt in (p.0, p.1, length-clamp_name name)
