-- ===== src/Knowledge/Laws.antt =====
-- What saving, importing and removing a document come to.
use apifor_dev.Common.{
  ℕ, suc, ◌+◌, ◌≤◌, String, ◌==◌, eq_refl, ◌≡◌, refl, sym, ap, ◌∙◌, inl, inr, Bool, true, false,
  ◌||◌, not, Option, some, List, [], ◌∷◌, ◌++◌, arith, if◌then◌else◌, Bool-cases, if-true, if-false,
  filter, any, count,
}
use apifor_dev.Common.Text
use apifor_dev.Knowledge.{
  reload_kb, deleted, file_doc, draft_doc, blank_draft, delete_call, Doc, save_doc, doc_call,
  after_save, del_doc, import_file, Knowledge, Call,
}
use apifor_dev.Async.{returned, thrown, run, Outcome}
use apifor_dev.Knowledge.Docs.{all_docs}
use apifor_dev.Session.{truthy}

count-append {ℓ} :
    {A : Type ℓ} (p : A → Bool) (xs ys : List A) → count p (xs ++ ys) ≡ count p xs + count p ys
count-append p [] ys = omega arith
count-append p (x ∷ xs) ys = elim (Bool-cases (p x)) [
  | inl e ↦ rw e (omega (arith, count-append p xs ys))
  | inr e ↦ rw e (count-append p xs ys)
]

one-le-count {ℓ} : {A : Type ℓ} (p : A → Bool) (xs : List A) → any p xs ≡ true → 1 ≤ count p xs
one-le-count p [] h = cc
one-le-count p (x ∷ xs) h = elim (Bool-cases (p x)) [
  | inl e ↦ rw e (omega arith)
  | inr e ↦ rw e (one-le-count p xs (ground arith))
]

any-filter-not {ℓ} :
    {A : Type ℓ} (p : A → Bool) (xs : List A) → any p (filter (λ x. not (p x)) xs) ≡ false
any-filter-not p [] = refl
any-filter-not p (x ∷ xs) = elim (Bool-cases (p x)) [
  | inl e ↦ rw e (any-filter-not p xs)
  | inr e ↦ rw e (rw e (any-filter-not p xs))
]

module _ (now : String) (bytes : String → ℕ) (env : Call → Outcome (Option String)) where
  abbrev post_of : Knowledge → Call
  post_of s = doc_call (Text.append s.wd.title ".md") s.wd.category s.wd.content "inline"

  -- The page after the call of `save_doc`.
  abbrev pub kept : Outcome (Option String) → Knowledge → Knowledge
  kept (thrown e) s = record s { saving = false }
  kept (returned id) s =
      if truthy id
      then record s {
        kb_reloads = suc s.kb_reloads;
        wd = blank_draft;
        write_open = false;
        saving = false;
      }
      else record s {
        local_docs = draft_doc now bytes s.wd ∷ s.local_docs;
        wd = blank_draft;
        write_open = false;
        saving = false;
      }

  saved_lem :
      (o : Outcome (Option String)) (s : Knowledge)
      → (run env (after_save now bytes s.wd o) (record s { saving = true })).0 ≡ kept o s
  unfolding run
  saved_lem (returned id) s = elim (Bool-cases (truthy id)) [
    | inl e ↦ rw e refl
    | inr e ↦ rw e refl
  ]
  saved_lem (thrown e) s = refl

  -- A document whose title or content is blank is not sent. Any other is sent once. If the server
  -- answers with an id, the list is read again and the page keeps no copy; if it answers without one,
  -- an error included, the page keeps the document itself, at the head of its own; in both cases the
  -- dialog closes with an empty form. If the call throws, the dialog stays open with what was written.
  -- No case leaves the page saving.
  pub run-save_doc :
      (s : Knowledge)
      → (run env (save_doc now bytes s) s).0 ≡ (
          if (Text.trim s.wd.title == "") || (Text.trim s.wd.content == "")
          then s
          else kept (env (post_of s)) s)
  unfolding run save_doc
  run-save_doc s =
      elim (Bool-cases ((Text.trim s.wd.title == "") || (Text.trim s.wd.content == ""))) [
        | inl e ↦ ap (λ h. (run env h s).0) (if-true _ _ e) ∙ sym (if-true _ _ e)
        | inr e ↦
            ap (λ h. (run env h s).0) (if-false _ _ e)
            ∙ saved_lem (env (post_of s)) s
            ∙ sym (if-false _ _ e)
      ]

  any_head :
      (name : String) (d : Doc) (ds : List Doc)
      → (d.name == name) ≡ true
      → any (λ x. x.name == name) (d ∷ ds) ≡ true
  any_head name d ds e = rw e refl

  -- An imported file stays among the documents of the page whatever the server answers. So where the
  -- server has taken it, and its list then holds a document of that name, the page lists two.
  pub import_file-twice :
      (name : String) (size : ℕ) (content : String) (s : Knowledge) (kb : List Doc)
      → any (λ d. d.name == name) kb ≡ true
      → let after = (run env (import_file now bytes name size content) s).0 in
        (2 ≤ count (λ d. d.name == name) (all_docs (some kb) after))
        × (after.kb_reloads ≡ suc s.kb_reloads)
  unfolding run import_file all_docs
  import_file-twice name size content s kb h =
      let p = λ (d : Doc). d.name == name in
      let copy = file_doc now bytes name size content in
      let sum = count-append p kb (copy ∷ s.local_docs) in
      let theirs = one-le-count p kb h in
      let ours : 1 ≤ count p (copy ∷ s.local_docs) =
        one-le-count p (copy ∷ s.local_docs) (any_head name copy s.local_docs (eq_refl name)) in
      (omega arith, refl)

  abbrev Deleted : Doc → Knowledge → Type 0
  Deleted d s =
      let mine : Bool = Text.starts_with d.id "local-" in
      let after : Knowledge × List Call = run env (del_doc d) s in
      (after.1 ≡ (if mine then [] else delete_call (Text.append "/v1/kb-documents/" d.id) ∷ []))
      × (mine ≡ true → any (λ x. x.id == d.id) after.0.local_docs ≡ false)
      × (mine ≡ false → after.0.local_docs ≡ s.local_docs)

  del_local : (d : Doc) (s : Knowledge) → Text.starts_with d.id "local-" ≡ true → Deleted d s
  unfolding run del_doc
  del_local d s e =
      rw e (refl, λ h. any-filter-not (λ (x : Doc). x.id == d.id) s.local_docs, λ h. cc)

  deleted_local :
      (o : Outcome (Option String)) (s : Knowledge)
      → (run env (deleted reload_kb o) s).0.local_docs ≡ s.local_docs
  unfolding run
  deleted_local (returned r) s = refl
  deleted_local (thrown x) s = refl

  deleted_calls :
      (o : Outcome (Option String)) (s : Knowledge) → (run env (deleted reload_kb o) s).1 ≡ []
  unfolding run
  deleted_calls (returned r) s = refl
  deleted_calls (thrown x) s = refl

  del_remote : (d : Doc) (s : Knowledge) → Text.starts_with d.id "local-" ≡ false → Deleted d s
  unfolding run del_doc
  del_remote d s e =
      let call_of = delete_call (Text.append "/v1/kb-documents/" d.id) in
      (
        ap (λ h. (run env h s).1) (if-false _ _ e)
            ∙ ap (λ qs. call_of ∷ qs) (deleted_calls (env call_of) s)
            ∙ sym (if-false _ _ e),
        λ k. cc,
        λ k. ap (λ h. (run env h s).0.local_docs) (if-false _ _ e) ∙ deleted_local (env call_of) s,
      )

  -- A document of the page is removed from the page with no call; one of the server is removed by one
  -- call, after which the list is read again, and the documents of the page stay.
  pub run-del_doc :
      (d : Doc) (s : Knowledge)
      → let (after, calls) = run env (del_doc d) s in
        let mine : Bool = Text.starts_with d.id "local-" in
        (calls ≡ (if mine then [] else delete_call (Text.append "/v1/kb-documents/" d.id) ∷ []))
        × (mine ≡ true → any (λ x. x.id == d.id) after.local_docs ≡ false)
        × (mine ≡ false → after.local_docs ≡ s.local_docs)
  unfolding run del_doc
  run-del_doc d s = elim (Bool-cases (Text.starts_with d.id "local-")) [
    | inl e ↦ del_local d s e
    | inr e ↦ del_remote d s e
  ]
