-- ===== src/Examples/Consents.antt =====
-- Becoming friends, over an empty store kept in memory and a network on which nobody answers.
use syncy.Base.{
  ℕ, ◌≤◌, Bytes, List, [], ◌∷◌, ◌≡◌, ◌⊎◌, inl, inr, refl, ok, err, Result, Option, none, some, Bool,
  true, false, not, str, length, arith, All, Eq, nat_eq, list_eq,
}
use syncy.Core.{Folder, at, DeviceId}
use syncy.Protocol.{Frame, type_friend_response}
use syncy.Metadata.{
  Json, Store, DeviceRow, bool_to_int, unix_or_zero, time_from_unix, list_to_json, list_from_json,
}
use native.Mathlib.Decide.{ℕ_discrete}
use syncy.Base.Dict.{lookup, insert}
use syncy.Metadata.Devices.{get_device, put_device, scan_device, device_row}
use syncy.Metadata.Memory.{memory_database}
use syncy.Metadata.Friends.{get_friend_request}
use syncy.Metadata.Folders.{put_folder, default_direction}
use syncy.Metadata.Roundtrip.{Reads, put_folder-Reads}
use syncy.Friends.{
  World, clamp_endpoints, clamp_name, clamp_into, refreshed, apply_to, ask_or_accept, asked,
  add_unless_trusted, send_friend_request, send_to, add_friend_by_code, apply_friend_response,
}
use syncy.Friends.Trust.{IsTrusted, IsMarked, trusted_row, device_at}
use syncy.Friends.Effects.{apply_friend_response-Trusted}
use syncy.Friends.Clamp.{Sound, clamp_endpoints-Sound}
use syncy.Daemon.{
  Event, connection, add_friend, run, serve_conn, is_trusted, step, untrusted_response,
  serve_untrusted, Reply, has_folder_data,
}
use syncy.Daemon.Access.{Accepts, serve_conn-untrusted, serve_untrusted-Trusted}
use syncy.Daemon.Syncing.{begin, end, calls, begin_sync, begin_sync_once}
use syncy.Daemon.Consent.{Decided, run-Decided}

-- Lists of at most one text.
abbrev first_text : List Bytes → Option Bytes
first_text [] = none
first_text (t ∷ ts) = some t

abbrev one_text : Json
one_text = record { marshal = first_text; unmarshal = λ t. some (t ∷ []) }

abbrev bob : DeviceId
bob = str "B"

abbrev world : World
world = record {
  self = str "A";
  host_port = λ ep. true;
  exchange = λ id ep typ. none;
  decode_response = λ b. some (record { accepted = true; name = str "Bob"; endpoints = [] });
  decode_request = λ b. none;
  decode_invite = λ b. some (record { device_id = b; name = str "Bob"; endpoints = [] });
  json = one_text;
  now = at 1000 250;
}

abbrev empty : Store memory_database
empty = record { devices = []; folders = []; requests = []; settings = [] }

abbrev bob_row : ℕ → ℕ → DeviceRow
bob_row trusted pending = record {
  name = str "Bob";
  trusted = trusted;
  pending_outgoing = pending;
  endpoints = [];
  last_seen = 0;
  added_at = 1000;
}

-- Bob was asked and has not answered.
abbrev waiting : Store memory_database
waiting = record empty { devices = (bob, bob_row 0 1) ∷ [] }

abbrev accepts : Option Frame
accepts = some (record { typ = type_friend_response; payload = [] })

-- The user adds Bob by his code; Bob connects and accepts.
abbrev friendship : List Event
friendship = add_friend bob ∷ connection bob (accepts ∷ []) ∷ []

bob-asked : (add_friend_by_code world memory_database bob empty).1 ≡ waiting
unfolding lookup insert get_device put_device scan_device device_row bool_to_int unix_or_zero
    time_from_unix list_to_json list_from_json apply_friend_response apply_to refreshed clamp_name
    clamp_into clamp_endpoints list_eq ℕ_discrete serve_untrusted untrusted_response serve_conn
    is_trusted step run add_friend_by_code ask_or_accept add_unless_trusted send_friend_request
    send_to asked get_friend_request
bob-asked = refl

bob-answers :
    IsTrusted memory_database (serve_conn world memory_database bob (accepts ∷ []) waiting).1 bob
unfolding lookup insert get_device put_device scan_device device_row bool_to_int unix_or_zero
    time_from_unix list_to_json list_from_json apply_friend_response apply_to refreshed clamp_name
    clamp_into clamp_endpoints list_eq ℕ_discrete serve_untrusted untrusted_response serve_conn
    is_trusted step run add_friend_by_code ask_or_accept add_unless_trusted send_friend_request
    send_to
bob-answers = refl

friendship-trust : IsTrusted memory_database (run world memory_database friendship empty) bob
unfolding run step
friendship-trust = rw bob-asked bob-answers

run-Decided_example :
    IsMarked memory_database empty bob ⊎ Decided world memory_database friendship bob
run-Decided_example = run-Decided world memory_database friendship empty bob friendship-trust

waiting-untrusted : trusted_row (device_at memory_database waiting bob) ≡ false
unfolding syncy.Base.Dict.lookup list_eq syncy.Base.ℕ_discrete
waiting-untrusted = refl

serve_conn-untrusted_example :
    ((serve_conn world memory_database bob (accepts ∷ accepts ∷ []) waiting).0 ≡ [])
    ⊎ ((reply : Reply) × ((serve_conn world memory_database bob (accepts ∷ accepts ∷ []) waiting).0
          ≡ reply ∷ [])
        × (has_folder_data reply ≡ false))
serve_conn-untrusted_example =
    serve_conn-untrusted world memory_database bob (accepts ∷ accepts ∷ []) waiting
      waiting-untrusted

waiting-accepted :
    IsTrusted memory_database (serve_untrusted world memory_database bob accepts waiting).1 bob
unfolding lookup insert get_device put_device scan_device device_row bool_to_int unix_or_zero
    time_from_unix list_to_json list_from_json apply_friend_response apply_to refreshed clamp_name
    clamp_into clamp_endpoints list_eq ℕ_discrete serve_untrusted untrusted_response
waiting-accepted = refl

serve_untrusted-Trusted_example :
    IsTrusted memory_database waiting bob
    ⊎ ((bob ≡ bob) × IsMarked memory_database waiting bob × Accepts world memory_database accepts)
serve_untrusted-Trusted_example =
    serve_untrusted-Trusted world memory_database bob accepts waiting bob waiting-accepted

waiting-applied :
    IsTrusted memory_database
      (apply_friend_response world memory_database bob (str "Bob") [] waiting).1
      bob
unfolding lookup insert get_device put_device scan_device device_row bool_to_int unix_or_zero
    time_from_unix list_to_json list_from_json apply_friend_response apply_to refreshed clamp_name
    clamp_into clamp_endpoints list_eq ℕ_discrete
waiting-applied = refl

apply_friend_response-Trusted_example :
    IsTrusted memory_database waiting bob ⊎ ((bob ≡ bob) × IsMarked memory_database waiting bob)
apply_friend_response-Trusted_example =
    apply_friend_response-Trusted world memory_database bob (str "Bob") [] waiting bob
      waiting-applied

clamp_endpoints-Sound_example :
    (length (clamp_endpoints world (str "h:1" ∷ [])) ≤ 16)
    × All (Sound world) (clamp_endpoints world (str "h:1" ∷ []))
    × (length (clamp_name (str "Bob")) ≤ 120)
clamp_endpoints-Sound_example = clamp_endpoints-Sound world (str "Bob") (str "h:1" ∷ [])

abbrev photos : Folder
photos = record {
  id = str "f1";
  label = str "Photos";
  path = str "/photos";
  direction = [];
  paused = false;
  added_at = at 5 1;
}

put_folder-Reads_example :
    Reads memory_database (default_direction photos) empty (put_folder memory_database photos empty)
put_folder-Reads_example = put_folder-Reads memory_database photos empty

-- A second sync with Bob is refused while one with another device ends.
begin_sync_once_example :
    (begin_sync bob (calls (end (str "C") ∷ begin bob ∷ []) (begin_sync bob (λ id. false)).1).1).0
    ≡ false
unfolding list_eq ℕ_discrete
begin_sync_once_example = begin_sync_once (end (str "C") ∷ begin bob ∷ []) bob (λ id. false) (refl)
