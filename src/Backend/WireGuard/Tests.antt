-- ===== src/Backend/WireGuard/Tests.antt =====
-- backend/wireguard/peer_store.go and iplimit.go on two users. A key is a text, and its own String.
use hpxnode.Prelude.{ℕ, ◌+◌, true, [], ◌∷◌, none, some, String, string_eq, length, arith, ◌≡◌, refl}
use hpxnode.Prelude.Dict.{Dict, lookup, insert, delete, IsDict}
use hpxnode.Backend.WireGuard.PeerStore.{PeerInfo, PeerStore, new_peer_store, apply_changes}
use hpxnode.Backend.WireGuard.IpLimit.{
  Limits, Host, enforce_ip_limits, windows_at, fold_endpoints, touch, prune, fresh, decide,
  user_action, next_strikes, apply_actions, apply_action,
}
use hpxnode.Backend.WireGuard.Machine.{next_standing}
use hpxnode.Backend.WireGuard.Windows.{HasWindows, last_seen}
use hpxnode.Backend.WireGuard.Strikes.{standing_of, window_at, lookup-enforce_ip_limits}
use hpxnode.Backend.WireGuard.OneToOne.{IsOneToOne, apply_changes-IsOneToOne}
use hpxnode.Backend.WireGuard.Replace.{new_peer_store-IsOneToOne}

abbrev minute : ℕ
minute = 60000000000

-- Ann is allowed one device, has one strike, and is seen at two addresses.
abbrev two_devices : Limits
two_devices = record {
  user_limits = ("ann", 1) ∷ [];
  user_speed = [];
  kicked = [];
  ip_window = ("ann", ("10.0.0.1", minute) ∷ []) ∷ [];
  over_strikes = ("ann", 1) ∷ [];
}

abbrev seen_elsewhere : Dict String (Dict String (Unit {0}))
seen_elsewhere = ("ann", ("10.0.0.2", tt) ∷ []) ∷ []

abbrev kernel : Host
kernel = record { has_peer = λ e. true; removes = λ e. true; readmits = λ e. true }

two_devices-kicked :
    lookup "ann" (enforce_ip_limits (minute + 5) kernel seen_elsewhere two_devices).kicked
    ≡ some (minute + 5)
unfolding lookup enforce_ip_limits windows_at fold_endpoints touch insert prune fresh decide
    user_action next_strikes apply_actions apply_action delete
two_devices-kicked = refl

two_devices-HasWindows : HasWindows two_devices.ip_window
unfolding lookup
two_devices-HasWindows = ((refl, tt), λ email. ground arith)

lookup-enforce_ip_limits_example :
    (standing_of "ann" (enforce_ip_limits (minute + 5) kernel seen_elsewhere two_devices)
      ≡ next_standing
          (minute + 5)
          true
          true
          (some 1)
          (length (window_at (minute + 5) seen_elsewhere two_devices "ann"))
          (record { kicked = none; strikes = some 1 }))
    × (IsDict (window_at (minute + 5) seen_elsewhere two_devices "ann")
        × ((ip : String)
            → lookup ip (window_at (minute + 5) seen_elsewhere two_devices "ann")
              ≡ last_seen (minute + 5) seen_elsewhere two_devices.ip_window "ann" ip))
unfolding lookup
lookup-enforce_ip_limits_example =
    lookup-enforce_ip_limits (minute + 5) kernel seen_elsewhere two_devices "ann" (refl, tt)
      (refl, tt) two_devices-HasWindows

abbrev key_text : String → String
key_text k = k

abbrev peer : String → String → PeerInfo String
peer email key = record { email = email; public_key = key; allowed_ips = [] }

abbrev filled : PeerStore String
filled = record {
  peers = ("k1", peer "ann" "k1") ∷ ("k2", peer "bob" "k2") ∷ [];
  email_to_key = ("ann", "k1") ∷ ("bob", "k2") ∷ [];
}

-- Bob takes over Ann's key.
apply_changes-IsOneToOne_example :
    IsOneToOne
      (apply_changes key_text new_peer_store
        ("k9" ∷ [])
        (some (peer "ann" "k1") ∷ some (peer "bob" "k1") ∷ [])).0
apply_changes-IsOneToOne_example =
    apply_changes-IsOneToOne key_text new_peer_store ("k9" ∷ [])
      (some (peer "ann" "k1") ∷ some (peer "bob" "k1") ∷ []) (new_peer_store-IsOneToOne String)
