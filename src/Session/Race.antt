-- ===== src/Session/Race.antt =====
-- Interleavings that break the invariant of the session (src/core.rs: `login`, `login_oauth`,
-- `restore` and `start` do not hold the state between their check and their write).
use omarchy_chatd.Base.{
  suc, ◌≡◌, refl, true, false, Option, none, some, List, [], ◌∷◌, ◌++◌, arith, Text,
}
use omarchy_chatd.Session.Types.{
  Secret, Persisted, Client, Error, sign_in_failed, Status, World, ok, err, login_pending, status,
  remove_path,
}
use omarchy_chatd.Secrets.{answered}
use omarchy_chatd.Session.Disk.{complete, save_session, all_removed}
use omarchy_chatd.Session.Login.{
  ensure_signed_out, LoginAnswers, login_checked, with_data, TaskAnswers, oauth_outcome, oauth_task,
  logout, restore_with,
}

-- Everything that a password login asks for is granted.
pub record IsGranted (a : LoginAnswers) (c : Client) (s : Text) : Type 0 where
  pub built : a.build.built ≡ some c
  pub accepted : a.accepted ≡ true
  pub session : c.matrix_session ≡ some s
  pub written : a.save.write ≡ complete

-- Two password logins on a signed-out state that both pass the check before either writes: a
-- second sync loop runs, and a logout that follows stops only that one.
interleaved_logins_leak :
    (a b : LoginAnswers) (c d : Client) (s t : Text) (w : World)
    → w.client ≡ none
    → w.pending ≡ none
    → w.running ≡ []
    → IsGranted a c s
    → IsGranted b d t
    → let checked = ensure_signed_out w in
      let both = (login_checked b (login_checked a checked.1).1).1 in
      (checked ≡ (ok tt, w))
      × (both.running ≡ suc w.next_task ∷ w.next_task ∷ [])
      × ((logout answered all_removed both).1.running ≡ w.next_task ∷ [])
unfolding ensure_signed_out login_checked save_session logout
interleaved_logins_leak a b c d s t w h p r g k = ground arith

-- A browser sign-in that waits while a background retry restores the old session is not stopped:
-- when the browser answers, a second sync loop runs beside the first.
abandoned_sign_in_leaks :
    (a : TaskAnswers) (c d : Client) (saved : Persisted) (s : Secret) (id user path pass : Text)
    (w : World)
    → w.running ≡ []
    → a.redirect ≡ with_data
    → a.finished ≡ true
    → c.full_session ≡ some (id, user)
    → a.save.write ≡ complete
    → let restored = restore_with (some d) true saved s w in
      (restored.0 ≡ ok tt)
      × (restored.1.pending ≡ none)
      × ((oauth_task a c path pass restored.1).1.running ≡ suc w.next_task ∷ w.next_task ∷ [])
unfolding restore_with oauth_task save_session
abandoned_sign_in_leaks a c d saved s id user path pass w r e f g k = ground arith

-- The state announced last after a failed browser sign-in.
abbrev pub last_announced : List Status → Option Status
last_announced [] = none
last_announced (s ∷ []) = some s
last_announced (s ∷ t ∷ ss) = last_announced (t ∷ ss)

pub last_announced-append : (ss : List Status) (s : Status) → last_announced (ss ++ s ∷ []) ≡ some s
last_announced-append [] s = refl
last_announced-append (t ∷ []) s = refl
last_announced-append (t ∷ u ∷ ss) s = last_announced-append (u ∷ ss) s

-- After a browser sign-in that fails, the state announced last still says that one is pending: the
-- announcement is made inside the task, whose handle is not finished before it returns. The status
-- read after the task says otherwise.
failed_sign_in_announced :
    (a : TaskAnswers) (c : Client) (path pass : Text) (w : World) {e : Error}
    → login_pending w ≡ true
    → (oauth_outcome a c path pass w).0 ≡ err e
    → let w' = (oauth_task a c path pass w).1 in
      (s : Status) × (last_announced w'.announced ≡ some s)
      × (s.pending_login ≡ true)
      × ((status w').pending_login ≡ false)
unfolding oauth_task oauth_outcome save_session login_pending status
failed_sign_in_announced a c path pass w {e} p f =
    let out = (oauth_outcome a c path pass w).1 in
    let said : World = record out {
      stores = remove_path path out.stores;
      error = some (sign_in_failed e);
    } in
    (
      status said,
      ground (arith, last_announced-append out.announced (status said)),
      ground arith,
      ground arith,
    )
