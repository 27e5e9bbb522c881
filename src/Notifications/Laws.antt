-- ===== src/Notifications/Laws.antt =====
-- What opening the menu and marking as read lead to.
use apifor_dev.Common.{
  ℕ, ◌+◌, String, ◌==◌, ◌≡◌, refl, inl, inr, Bool, true, false, ◌&&◌, not, none, some, List, [],
  ◌∷◌, map, arith, ltb, if◌then◌else◌, Bool-cases, length, count,
}
use apifor_dev.Notifications.{
  Notif, Menu, Answer, Call, open_menu, received, notif_mock, or_mock, mark_all, mark_one, close,
  unread, unread_count, get_notifications,
}
use apifor_dev.Async.{thrown, returned, run, Outcome}

module _ (ago : ℕ → String) (env : Call → Outcome Answer) where
  or_mock-ne-nil : (ns : List Notif) → ltb 0 (length (or_mock ago ns)) ≡ true
  unfolding notif_mock
  or_mock-ne-nil [] = refl
  or_mock-ne-nil (n ∷ ns) = ground arith

  received-ne-nil : (o : Outcome Answer) → ltb 0 (length (received ago o)) ≡ true
  unfolding notif_mock
  received-ne-nil (returned none) = refl
  received-ne-nil (returned (some ns)) = or_mock-ne-nil ns
  received-ne-nil (thrown e) = refl

  -- Opening the menu. It is open and not loading at the end if it was not loading before, and it always has
  -- notifications to show: those it had, with no call; and otherwise, after one call, those of the answer, or
  -- the stand-in ones if the call fails or answers with none.
  pub run-open_menu :
      (m : Menu)
      → m.loading ≡ false
      → let after = run env (open_menu ago m) m in
        let had : Bool = ltb 0 (length m.notifs) in
        (after.0.open? ≡ true)
        × (after.0.loading ≡ false)
        × (after.0.notifs ≡ (if had then m.notifs else received ago (env get_notifications)))
        × (ltb 0 (length after.0.notifs) ≡ true)
        × (after.1 ≡ (if had then [] else get_notifications ∷ []))
  unfolding open_menu run
  run-open_menu m h = elim (Bool-cases (ltb 0 (length m.notifs))) [
    | inl e ↦ rw e (refl, h, refl, e, refl)
    | inr e ↦ rw e (refl, refl, refl, received-ne-nil (env get_notifications), refl)
  ]

unread-marked : (ns : List Notif) → unread (map {A = Notif} (λ n. record n { read = true }) ns) ≡ 0
unfolding unread
unread-marked [] = refl
unread-marked (n ∷ ns) = unread-marked ns

-- Marking all as read empties the bell of an open menu; when the menu is closed, the bell shows the
-- server's count again, whatever was marked.
pub mark_all-bell :
    (env : Call → Outcome Answer) (from_stream : ℕ) (m : Menu)
    → let after = (run env mark_all m).0 in
      (unread after.notifs ≡ 0)
      × (unread_count from_stream after ≡ (if m.open? then 0 else from_stream))
      × (unread_count from_stream (close after) ≡ from_stream)
unfolding run mark_all close unread_count
mark_all-bell env from_stream m = rw (unread-marked m.notifs) (refl, refl, refl)

-- Marking one as read lowers the number of unread ones by those of that number that were unread.
pub mark_one-unread :
    (id : String) (m : Menu)
    → unread (mark_one id m).notifs + count (λ n. n.id == id && not n.read) m.notifs
      ≡ unread m.notifs
unfolding mark_one unread
mark_one-unread id m = one m.notifs
  where
    one :
        (ns : List Notif)
        → unread (map (λ n. if n.id == id then record n { read = true } else n) ns)
            + count (λ n. n.id == id && not n.read) ns
          ≡ unread ns
    one [] = refl
    one (n ∷ ns) = elim (Bool-cases (n.id == id)) [
      | inl e ↦ rw e (ground (arith, one ns))
      | inr e ↦ rw e (ground (arith, one ns))
    ]
