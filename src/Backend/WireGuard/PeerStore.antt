-- ===== src/Backend/WireGuard/PeerStore.antt =====
-- backend/wireguard/peer_store.go and PeerInfo of config.go. A public key is of any type, with the
-- text that its String method gives as a parameter: the type stands outside the repository. The
-- lock is held by each operation from end to end.
use hpxnode.Prelude.{
  ℕ, not, List, [], ◌∷◌, Option, none, some, String, string_eq, ◌==◌, if◌then◌else◌, is_some,
}
use hpxnode.Prelude.Dict.{Dict, lookup, insert, delete, keys}

-- net.IPNet: the bytes of an address and of a mask.
pub record IpNet : Type 0 where
  pub ip : List ℕ
  pub mask : List ℕ

pub record PeerInfo (Key : Type 0) : Type 0 where
  pub email : String
  pub public_key : Key
  pub allowed_ips : List IpNet

pub record PeerStore (Key : Type 0) : Type 0 where
  pub peers : Dict String (PeerInfo Key)
  pub email_to_key : Dict String String

abbrev pub new_peer_store : {Key : Type 0} → PeerStore Key
new_peer_store = record { peers = []; email_to_key = [] }

-- The owner that the map of peers gives for a key.
abbrev pub email_of : {Key : Type 0} → Option (PeerInfo Key) → Option String
email_of none = none
email_of (some p) = some p.email

module _ {Key : Type 0} where
  abbrev pub remove_found : PeerStore Key → String → Option (PeerInfo Key) → PeerStore Key
  remove_found s key none = s
  remove_found s key (some p) = record s {
    peers = delete key s.peers;
    email_to_key = delete p.email s.email_to_key;
  }

  unfoldable pub remove_keys : PeerStore Key → List String → PeerStore Key × List String
  remove_keys s [] = (s, [])
  remove_keys s (key ∷ ks) =
      let rest = remove_keys (remove_found s key (lookup key s.peers)) ks in
      if is_some (lookup key s.peers) then (rest.0, key ∷ rest.1) else rest

  -- `delete(ps.peers, oldKey)` of an upsert
  abbrev pub drop_old_key :
      String → Option String → Dict String (PeerInfo Key) → Dict String (PeerInfo Key)
  drop_old_key key none ps = ps
  drop_old_key key (some old) ps = if not (old == key) then delete old ps else ps

  -- `delete(ps.emailToKey, existingPeer.Email)` of an upsert
  abbrev pub drop_old_owner :
      String → Option (PeerInfo Key) → Dict String String → Dict String String
  drop_old_owner email none m = m
  drop_old_owner email (some q) m = if not (q.email == email) then delete q.email m else m

  -- The keys of the old map that the new one lacks.
  unfoldable pub gone : Dict String (PeerInfo Key) → List String → List String
  gone ps [] = []
  gone ps (key ∷ ks) = let rest = gone ps ks in if is_some (lookup key ps) then rest else key ∷ rest

  module _ (key_string : Key → String) where
    unfoldable pub upsert : PeerStore Key → PeerInfo Key → PeerStore Key
    upsert s p =
        let key = key_string p.public_key in
        let kept = drop_old_key key (lookup p.email s.email_to_key) s.peers in
        record {
          peers = insert key p kept;
          email_to_key =
              insert p.email key (drop_old_owner p.email (lookup key kept) s.email_to_key);
        }

    unfoldable pub upsert_peers : PeerStore Key → List (Option (PeerInfo Key)) → PeerStore Key
    upsert_peers s [] = s
    upsert_peers s (none ∷ ps) = upsert_peers s ps
    upsert_peers s (some p ∷ ps) = upsert_peers (upsert s p) ps

    unfoldable pub apply_changes :
        PeerStore Key → List String → List (Option (PeerInfo Key)) → PeerStore Key × List String
    apply_changes s remove ps = let rest = remove_keys s remove in (upsert_peers rest.0 ps, rest.1)

    -- Storing without a look at what is there, as Init and ReplaceAll do.
    unfoldable pub store : PeerStore Key → PeerInfo Key → PeerStore Key
    store s p = record {
      peers = insert (key_string p.public_key) p s.peers;
      email_to_key = insert p.email (key_string p.public_key) s.email_to_key;
    }

    unfoldable pub init : PeerStore Key → List (Option (PeerInfo Key)) → PeerStore Key
    init s [] = s
    init s (none ∷ ps) = init s ps
    init s (some p ∷ ps) = init (store s p) ps

    unfoldable pub replace_all :
        PeerStore Key → List (Option (PeerInfo Key)) → PeerStore Key × List String
    replace_all s ps = let next = init new_peer_store ps in (next, gone next.peers (keys s.peers))

  abbrev pub peer_at : PeerStore Key → Option String → Option (PeerInfo Key)
  peer_at s none = none
  peer_at s (some key) = lookup key s.peers

  unfoldable pub get_by_email : PeerStore Key → String → Option (PeerInfo Key)
  get_by_email s email = peer_at s (lookup email s.email_to_key)

  unfoldable pub get_by_key : PeerStore Key → String → Option (PeerInfo Key)
  get_by_key s key = lookup key s.peers

  abbrev pub values : Dict String (PeerInfo Key) → List (PeerInfo Key)
  values [] = []
  values ((key, p) ∷ m) = p ∷ values m

  unfoldable pub get_all : PeerStore Key → List (PeerInfo Key)
  get_all s = values s.peers

  unfoldable pub snapshot_of : Dict String (PeerInfo Key) → Dict String String → Dict String String
  snapshot_of [] snapshot = snapshot
  snapshot_of ((key, p) ∷ m) snapshot = snapshot_of m (insert key p.email snapshot)

  unfoldable pub get_email_map : PeerStore Key → Dict String String
  get_email_map s = snapshot_of s.peers []
