-- ===== src/Account/Laws.antt =====
-- What a change of the password comes to.
use apifor_dev.Common.{
  String, ◌==◌, ◌≡◌, refl, sym, ap, ◌∙◌, inl, inr, Bool, true, false, ◌||◌, not, Option, [], ◌∷◌,
  ltb, if◌then◌else◌, Bool-cases, if-false,
}
use apifor_dev.Async.{thrown, returned, run, Outcome}
use apifor_dev.Account.{Change, save_password, Account}
use apifor_dev.Account.Units.{units}
use apifor_dev.Session.Api.{parsed}
use apifor_dev.Session.{Response}

-- The two tests that keep the form from being sent.
abbrev pub is_mismatch : Account → Bool
is_mismatch s = (s.pwd_new == "") || not (s.pwd_new == s.pwd_conf)

abbrev pub is_short : Account → Bool
is_short s = ltb (units s.pwd_new) 8

abbrev pub change_of : Account → Change
change_of s = record { current = s.pwd_cur; password = s.pwd_new }

module _ {J : Type 0} where
  -- The page after the call.
  abbrev pub told : Outcome J → Account → Account
  told (returned r) s = record s {
    pwd_cur = "";
    pwd_new = "";
    pwd_conf = "";
    saving = false;
    msg = "Senha atualizada.";
    ok = true;
  }
  told (thrown e) s = record s { saving = false; msg = "Erro ao atualizar."; ok = false }

  run-sent :
      (env : Change → Outcome J) (o : Outcome J) (s : Account)
      → is_mismatch s ≡ false
      → is_short s ≡ false
      → env (change_of s) ≡ o
      → run env (save_password s) s ≡ (told o s, change_of s ∷ [])
  unfolding run save_password
  run-sent env (returned r) s h k e = rw (h, k) (rw e refl)
  run-sent env (thrown x) s h k e = rw (h, k) (rw e refl)

-- The same for an answer as `fetch` gives it.
run_fetched :
    {J : Type 0} (parse : String → Option J) (nothing : J) (fetch : Change → Outcome Response)
    (o : Outcome Response) (s : Account)
    → is_mismatch s ≡ false
    → is_short s ≡ false
    → fetch (change_of s) ≡ o
    → run (λ c. parsed parse nothing (fetch c)) (save_password s) s ≡ (
      elim o [ returned r ↦ told (returned nothing) s | thrown e ↦ told {J = J} (thrown e) s ],
      change_of s ∷ [],
    )
unfolding parsed
run_fetched parse nothing fetch (returned r) s h k e =
    run-sent (λ c. parsed parse nothing (fetch c)) _ s h k (ap (parsed parse nothing) e)
run_fetched parse nothing fetch (thrown x) s h k e =
    run-sent (λ c. parsed parse nothing (fetch c)) _ s h k (ap (parsed parse nothing) e)

-- A new password that is empty, or typed twice differently, or of fewer than eight UTF-16 units, is
-- refused with the message of the first of these that applies, and nothing is sent. Any other is sent
-- once, with the current one. Whatever the server then answers, an error status and the refusal of
-- the current password included, the page clears the three fields and says that the password was
-- changed; only an exception of `fetch` makes it say otherwise, and keeps the fields.
pub run-save_password :
    {J : Type 0} (parse : String → Option J) (nothing : J) (fetch : Change → Outcome Response)
    (s : Account)
    → run (λ c. parsed parse nothing (fetch c)) (save_password s) s ≡ (
        if is_mismatch s
        then (record s { msg = "Senhas não coincidem."; ok = false }, [])
        else if is_short s
        then (record s { msg = "Mínimo 8 caracteres."; ok = false }, [])
        else (
          elim (fetch (change_of s)) [
            | returned r ↦ told (returned nothing) s
            | thrown e ↦ told {J = J} (thrown e) s
          ],
          change_of s ∷ [],
        ))
unfolding run save_password parsed
run-save_password parse nothing fetch s = elim (Bool-cases (is_mismatch s)) [
  | inl h ↦ rw h refl
  | inr h ↦ elim (Bool-cases (is_short s)) [
    | inl k ↦ rw (h, k) refl
    | inr k ↦
        run_fetched parse nothing fetch (fetch (change_of s)) s h k refl
        ∙ sym (if-false _ _ h ∙ if-false _ _ k)
  ]
]
