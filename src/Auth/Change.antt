-- ===== src/Auth/Change.antt =====
-- Who changes whose password, and what chpasswd then reads.
use meraki_builder.Prelude.{
  zero, suc, ◌≤◌, Bytes, true, false, not, [], ◌∷◌, ◌++◌, Option, none, some, ◌==◌, ◌||◌, ◌&&◌, ◌≡◌,
  ◌≢◌, ◌⊎◌, inl, inr, refl, arith, if_both, bytes_eq, bytes_eq→eq, length, Bool-cases, subst,
}
use meraki_builder.Roles.Fields.{cut_colon}
use meraki_builder.Roles.Account.{System, role_none, role_for_username}
use meraki_builder.Auth.Accounts.{AccountRecord, account_by_name, safe_username, all_safe, is_some}
use meraki_builder.Auth.Verify.{
  Verdict, verified, invalid_credentials, not_authorized, unavailable, locked, failed,
  auth_verify_user, is_none,
}
use meraki_builder.Auth.Proof.{has_role}
use meraki_builder.Auth.Manage.{
  Ended, exited, invalid_argument, no_entry, access_denied, default_password_mark, killed, not_run,
  Commands, Answer, success, is_success, answer_of, answer_of_verdict, has_char, bad_password,
  or_empty, input_for, unmark, run_chpasswd, change_as, auth_change_password, admin_name,
}

-- A text without a colon in front of one.
cut_colon-append : (s t : Bytes) → all_safe s ≡ true → cut_colon (s ++ b':' ∷ t) ≡ (s, some t)
unfolding cut_colon all_safe
cut_colon-append [] t h = refl
cut_colon-append (c ∷ s) t h =
    let plain : (c == b':') ≡ false = ground arith in
    let rest : all_safe s ≡ true = ground arith in rw (cut_colon-append s t rest, plain) refl

safe_username_all : (s : Bytes) → safe_username s ≡ true → all_safe s ≡ true
unfolding safe_username
safe_username_all s h = ground arith

verdict_success : (v : Verdict) → is_success (answer_of_verdict v) ≡ true → v ≡ verified
verdict_success verified e = refl
verdict_success invalid_credentials e = cc
verdict_success not_authorized e = cc
verdict_success unavailable e = cc
verdict_success locked e = cc
verdict_success failed e = cc

-- A password that may be set: 8 to 128 bytes, none of them a colon or the end of a line.
pub record Settable (new : Bytes) : Type 0 where
  pub long_enough : 8 ≤ length new
  pub short_enough : length new ≤ 128
  pub one_line : has_char 10 new ≡ false
  pub no_return : has_char 13 new ≡ false
  pub no_colon : has_char b':' new ≡ false

pub good_password :
    (o : Option Bytes) → bad_password o ≡ false → (o ≡ some (or_empty o)) × Settable (or_empty o)
unfolding bad_password
good_password none h = cc
good_password (some new) h = (
  refl,
  record {
    long_enough = ground arith;
    short_enough = ground arith;
    one_line = ground arith;
    no_return = ground arith;
    no_colon = ground arith;
  },
)

module _ (World : Type 0) (sys : Commands World) where
  -- What stands behind a call of chpasswd.
  pub record Allowed (actor target : Bytes) (actor_password new_password : Option Bytes) (w : World)
      : Type 0 where
    pub password : Bytes
    pub given : actor_password ≡ some password
    pub proved : auth_verify_user sys.crypt (sys.system w) actor (some password) ≡ verified
    pub actor_entry : AccountRecord
    pub on_file : account_by_name (sys.system w) actor ≡ some actor_entry
    pub authority : (actor_entry.uid ≡ 0) ⊎ (actor ≡ target)
    pub target_role : role_for_username (sys.system w) target ≢ role_none
    pub new : Bytes
    pub chosen : new_password ≡ some new
    pub settable : Settable new
    pub one_record : cut_colon (input_for target new) ≡ (target, some (new ++ 10 ∷ []))

  -- How an attempt to change a password ends: with an error, and nothing has run or changed; or,
  -- for an actor who may do it, with the failure of chpasswd and the state it left; or with success,
  -- where the mark of the default password is removed behind a change for root.
  pub data Outcome (actor target : Bytes) (actor_password new_password : Option Bytes) (w : World)
      : Answer × World → Type 0 where
    kept :
        (rc : Answer)
        → is_success rc ≡ false
        → Outcome actor target actor_password new_password w (rc, w)
    not_changed :
        (a : Allowed actor target actor_password new_password w) (ended : Ended) (after : World)
        → sys.chpasswd (input_for target a.new) w ≡ (ended, after)
        → is_success (answer_of ended) ≡ false
        → Outcome actor target actor_password new_password w (answer_of ended, after)
    changed :
        (a : Allowed actor target actor_password new_password w) (after : World)
        → sys.chpasswd (input_for target a.new) w ≡ (exited 0, after)
        → bytes_eq target admin_name ≡ false
        → Outcome actor target actor_password new_password w (success, after)
    root_changed :
        (a : Allowed actor target actor_password new_password w) (after : World)
        → sys.chpasswd (input_for target a.new) w ≡ (exited 0, after)
        → target ≡ admin_name
        → Outcome actor target actor_password new_password w
            (success, sys.unlink default_password_mark after)

  unmarked :
      (actor target : Bytes) (actor_password new_password : Option Bytes) (w : World)
      (a : Allowed actor target actor_password new_password w) (after : World)
      → sys.chpasswd (input_for target a.new) w ≡ (exited 0, after)
      → Outcome actor target actor_password new_password w
          (unmark World sys target (success, after))
  unmarked actor target actor_password new_password w a after c =
      if_both (λ (r : Answer × World). Outcome actor target actor_password new_password w r)
        (bytes_eq target admin_name) _ _
        (λ e. root_changed a after c (bytes_eq→eq target admin_name e)) (λ e. changed a after c e)

  chpasswd_ended :
      (actor target : Bytes) (actor_password new_password : Option Bytes) (w : World)
      (a : Allowed actor target actor_password new_password w) (p : Ended × World)
      → sys.chpasswd (input_for target a.new) w ≡ p
      → Outcome actor target actor_password new_password w
          (unmark World sys target (answer_of p.0, p.1))
  chpasswd_ended actor target actor_password new_password w a (exited zero, after) c =
      unmarked actor target actor_password new_password w a after c
  chpasswd_ended actor target actor_password new_password w a (exited (suc n), after) c =
      not_changed a (exited (suc n)) after c refl
  chpasswd_ended actor target actor_password new_password w a (killed, after) c =
      not_changed a killed after c refl
  chpasswd_ended actor target actor_password new_password w a (not_run errno, after) c =
      not_changed a (not_run errno) after c refl

  change_as-Outcome :
      (actor target : Bytes) (actor_password new_password : Option Bytes) (w : World)
      (o : Option AccountRecord)
      → ((entry : AccountRecord)
          → o ≡ some entry
          → (entry.uid ≡ 0) ⊎ (actor ≡ target)
          → (a : Allowed actor target actor_password new_password w) × (a.new
              ≡ or_empty new_password))
      → Outcome actor target actor_password new_password w
          (change_as World sys actor target (or_empty new_password) w o)
  unfolding change_as run_chpasswd
  change_as-Outcome actor target actor_password new_password w none allowed = kept no_entry refl
  change_as-Outcome actor target actor_password new_password w (some entry) allowed =
      if_both (λ (r : Answer × World). Outcome actor target actor_password new_password w r)
        (not (entry.uid == 0) && not (bytes_eq actor target)) _ _ (λ t. kept access_denied refl)
        (λ t.
          let (a, new) = allowed entry refl (elim (Bool-cases (bytes_eq actor target)) [
            | inl same ↦ inr (bytes_eq→eq actor target same)
            | inr other ↦ inl (ground arith)
          ]) in
          subst
            (λ (n : Bytes). Outcome actor target actor_password new_password w (
              unmark World sys target (
                answer_of (sys.chpasswd (input_for target n) w).0,
                (sys.chpasswd (input_for target n) w).1,
              )))
            new
            (chpasswd_ended actor target actor_password new_password w a
              (sys.chpasswd (input_for target a.new) w) refl))

  given_password :
      (system : System) (actor : Bytes) (o : Option Bytes)
      → auth_verify_user sys.crypt system actor o ≡ verified
      → (p : Bytes) × (o ≡ some p) × (auth_verify_user sys.crypt system actor (some p) ≡ verified)
  unfolding auth_verify_user
  given_password system actor none e = cc
  given_password system actor (some p) e = (p, refl, e)

  -- Every attempt to change a password ends in one of these ways: with an error, and no program
  -- has run; with the failure of chpasswd; or with success, when chpasswd ended with 0 and, if the
  -- target is root, the mark of the default password was then removed. In the last two, the
  -- actor's own password was verified, the actor has number 0 or is the target, the target has a
  -- role, the new password has 8 to 128 bytes and no colon, newline or carriage return, and what
  -- chpasswd read is the target's name, a colon, the new password and a newline, in which the first
  -- colon ends the name.
  pub auth_change_password-Outcome :
      (actor target : Bytes) (actor_password new_password : Option Bytes) (w : World)
      → Outcome actor target actor_password new_password w
          (auth_change_password World sys actor target actor_password new_password w)
  unfolding auth_change_password
  auth_change_password-Outcome actor target actor_password new_password w =
      let system = sys.system w in
      let verdict = auth_verify_user sys.crypt system actor actor_password in
      let P = λ (r : Answer × World). Outcome actor target actor_password new_password w r in
      if_both P
        (not (safe_username actor)
          || not (safe_username target)
          || not (is_some (account_by_name system target))
          || is_none (role_for_username system target))
        _ _ (λ t. kept no_entry refl)
        (λ t.
          let target_safe : safe_username target ≡ true = ground arith in
          let target_listed : is_none (role_for_username system target) ≡ false = ground arith in
          if_both P (bad_password new_password) _ _ (λ u. kept invalid_argument refl)
            (λ u.
              if_both P (not (is_success (answer_of_verdict verdict))) _ _
                (λ v. kept (answer_of_verdict verdict) (ground arith))
                (λ v.
                  let (p, given, proved) =
                    given_password system actor actor_password
                      (verdict_success verdict (ground arith)) in
                  let (chosen, settable) = good_password new_password u in
                  change_as-Outcome actor target actor_password new_password w
                    (account_by_name system actor)
                    (λ entry found authority. (
                      record {
                        password = p;
                        given = given;
                        proved = proved;
                        actor_entry = entry;
                        on_file = found;
                        authority = authority;
                        target_role = has_role (role_for_username system target) target_listed;
                        new = or_empty new_password;
                        chosen = chosen;
                        settable = settable;
                        one_record =
                            cut_colon-append target (or_empty new_password ++ 10 ∷ [])
                              (safe_username_all target target_safe);
                      },
                      refl,
                    )))))
