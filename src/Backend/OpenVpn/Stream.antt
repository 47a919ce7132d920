-- ===== src/Backend/OpenVpn/Stream.antt =====
-- backend/openvpn/mgmt.go over a stream of lines: the users' limits.
use hpxnode.Prelude.{
  ◌≤◌, ◌<◌, Bool, true, false, List, [], ◌∷◌, Option, none, some, String, string_eq, ◌==◌, length,
  if◌then◌else◌, arith, ◌≡◌, refl, sym, subst, Bool-cases, Option-cases, inl, inr,
}
use text.Mathlib.TextEquality.{eq_iff}
use hpxnode.Prelude.Dict.{Dict, lookup, delete}
use hpxnode.Backend.OpenVpn.Users.{Sessions, UserStore, live, ip_limit_of, release_session}
use hpxnode.Backend.OpenVpn.Excess.{
  IsWithin, live-store_or_drop, try_connect-IsWithin, try_connect-limit,
}
use hpxnode.Backend.OpenVpn.Mgmt.{
  World, env_value, finish_connect, finish_connect_with, finish_disconnect, finish_disconnect_with,
  Line, connect, disconnect, env, client_list, end_of_list, other, classify, handle, handle_line,
  run,
}

length-delete_le : (cid : String) (set : Sessions) → length (delete cid set) ≤ length set
unfolding delete
length-delete_le cid [] = omega arith
length-delete_le cid ((j, w) ∷ set) = ground (arith, length-delete_le cid set)

live-found :
    (s : UserStore) (cn : String) (set : Sessions)
    → lookup cn s.sessions ≡ some set
    → live s cn ≡ set
unfolding live
live-found s cn set found = rw found refl

-- A disconnection adds no session to any user.
release_session-live :
    (s : UserStore) (cn cid user : String)
    → length (live (release_session s cn cid) user) ≤ length (live s user)
unfolding release_session
release_session-live s cn cid user = elim (Option-cases (lookup cn s.sessions)) [
  | inl out ↦ rw out (omega arith)
  | inr (set, found) ↦ rw found (
      ground (
        arith,
        live-store_or_drop s cn user (delete cid set),
        length-delete_le cid set,
        eq_iff cn user,
        live-found s cn set found,
      ))
]

-- The user has a limit that fits a uint32, and is within it.
abbrev pub IsKept : String → World → Type 0
IsKept user w = (ip_limit_of w.store user < 0x100000000) × IsWithin w.store user

release_session-IsWithin :
    (s : UserStore) (cn cid user : String)
    → IsWithin s user
    → IsWithin (release_session s cn cid) user
unfolding ip_limit_of release_session
release_session-IsWithin s cn cid user (inl unlimited) = inl unlimited
release_session-IsWithin s cn cid user (inr within) =
    inr (omega (arith, within, release_session-live s cn cid user))

finish_connect-IsKept :
    (pending : Option (Dict String String)) (w : World) (user : String)
    → IsKept user w
    → IsKept user (finish_connect_with pending w)
finish_connect-IsKept none w user k = k
finish_connect-IsKept (some values) w user k = elim (Bool-cases (w.mgmt.pending_cid == "")) [
  | inl empty ↦ rw empty k
  | inr real ↦
      let cn = env_value "common_name" values in
      let serial = env_value "tls_serial_0" values in
      let username = env_value "username" values in
      let password = env_value "password" values in
      let limit = try_connect-limit w.store cn serial w.mgmt.pending_cid username password user in
      rw real (
        subst (λ n. n < 0x100000000) (sym limit) k.0,
        try_connect-IsWithin w.store cn serial w.mgmt.pending_cid username password user k.0 k.1,
      )
]

finish_disconnect-IsKept :
    (pending : Option (Dict String String)) (w : World) (user : String)
    → IsKept user w
    → IsKept user (finish_disconnect_with pending w)
unfolding ip_limit_of release_session
finish_disconnect-IsKept none w user k = k
finish_disconnect-IsKept (some values) w user k = elim (Bool-cases (w.mgmt.pending_cid == "")) [
  | inl empty ↦ rw empty k
  | inr real ↦ rw real (
    k.0,
    release_session-IsWithin w.store (env_value "common_name" values) w.mgmt.pending_cid user k.1,
  )
]

either_way :
    (b : Bool) (user : String) (v w : World)
    → IsKept user v
    → IsKept user w
    → IsKept user (if b then v else w)
either_way true user v w k l = k
either_way false user v w k l = l

handle-IsKept :
    (line : String) (l : Line) (w : World) (user : String)
    → IsKept user w
    → IsKept user (handle line l w)
unfolding finish_connect finish_disconnect
handle-IsKept line (connect rest) w user k = k
handle-IsKept line (disconnect rest) w user k = k
handle-IsKept line (env e) w user k = elim (Bool-cases (e == "END")) [
  | inr value ↦ rw value k
  | inl ends ↦ rw ends (
      either_way w.mgmt.pending_disconnect user (finish_disconnect w) (finish_connect w)
        (finish_disconnect-IsKept w.mgmt.pending_env w user k)
        (finish_connect-IsKept w.mgmt.pending_env w user k))
]
handle-IsKept line (client_list rest) w user k = k
handle-IsKept line end_of_list w user k = k
handle-IsKept line other w user k = k

-- Whatever lines the management interface sends, a user whose limit fits a uint32 and who has no
-- limit, or no more live sessions than the limit, is still within the same bound afterwards.
pub run-IsKept :
    (lines : List String) (w : World) (user : String) → IsKept user w → IsKept user (run w lines)
unfolding run handle_line
run-IsKept [] w user k = k
run-IsKept (line ∷ lines) w user k =
    run-IsKept lines (handle line (classify line) w) user
      (handle-IsKept line (classify line) w user k)
