-- ===== src/Cli/Tui/Delete/Confirmed.antt =====
-- That a contact is removed only on a confirmation: the key that arms and confirms.
use fez_meshcore_controller.Prelude.{
  Bool, Bool-cases, List, Option, Text, [], arith, false, inl, inr, map_option, none, refl, some,
  sym, text_eq, text_eq_iff, true, unwrap_or, ◌∙◌, ◌∷◌, ◌≡◌, ◌⊎◌,
}
use mathlib.Core.Path.{subst}
use fez_meshcore_controller.Core.Crypto.{Primitives}
use fez_meshcore_controller.Core.Mesh.{ContactDto}
use fez_meshcore_controller.Core.Mesh.Detail.{Outcome}
use fez_meshcore_controller.Cli.RepeaterFilter.{Display}
use fez_meshcore_controller.Cli.App.{App, Page, dashboard, packet_page, selected_contact}
use fez_meshcore_controller.Cli.Tui.{Effect, only, confirm_or_arm_delete, delete_selected}
use fez_meshcore_controller.Cli.Tui.Press.{
  Key, char, Input, ui_event, press, press_packet_page, press_filter, press_dashboard_char,
  press_dashboard, press_page, press_focused, dispatch_key, press_key, is_delete, round,
  state_after,
}
use fez_meshcore_controller.Cli.Tui.Delete.{removals, IsOnTable, event-Keeps, press_key-IsQuiet}

is_delete-char : (key : Key) → is_delete key ≡ true → key ≡ char b'd'
is_delete-char key e = ground arith

module _ (v : Display) where
  unfoldable pub selected_prefix : App → Option Text
  selected_prefix app = map_option (λ c. c.public_key_prefix_hex) (selected_contact v app)

  focus_cases :
      (app : App) (saved : Outcome (Unit {0})) (help filter_open : Bool) (page : Page)
      → app.help_open ≡ help
      → app.repeater_filter_open ≡ filter_open
      → app.page ≡ page
      → ((press_key v saved app (char b'd') ≡ only app) × ¬ IsOnTable app)
        ⊎ (IsOnTable app × (press_key v saved app (char b'd') ≡ confirm_or_arm_delete v app))
  unfolding press_key dispatch_key press_focused press_filter press_page press_dashboard
      press_dashboard_char press_packet_page
  focus_cases app saved true filter_open page h f g = inl (rw (h) refl, λ o. cc (o.0, h))
  focus_cases app saved false true page h f g = inl (rw (h, f) refl, λ o. cc (o.1, f))
  focus_cases app saved false false dashboard h f g = inr ((h, f, g), simp (h, f, g) refl)
  focus_cases app saved false false packet_page h f g =
      inl (simp (h, f, g) refl, λ o. ground (arith, o.2, g))

  -- Nothing is armed or removed.
  IsIdle : Effect → Type 0
  IsIdle e = (e.app.pending_delete ≡ none) × (removals e.sent ≡ [])

  Arms : App → Effect → Text × Text → Type 0
  Arms app e a =
      (e.app.pending_delete ≡ some a)
      × (removals e.sent ≡ [])
      × (selected_prefix app ≡ some a.0)
      × (e.app.help_open ≡ app.help_open)
      × (e.app.repeater_filter_open ≡ app.repeater_filter_open)
      × (e.app.page ≡ app.page)

  Removes : App → Effect → Text × Text → Type 0
  Removes app e a =
      (app.pending_delete ≡ some a)
      × (e.app.pending_delete ≡ none)
      × (removals e.sent ≡ a.0 ∷ [])
      × (selected_prefix app ≡ some a.0)

  abbrev IsArming : App → Effect → Type 0
  IsArming app e = (a : Text × Text) × Arms app e a

  abbrev IsRemoving : App → Effect → Type 0
  IsRemoving app e = (a : Text × Text) × Removes app e a

  delete_cases :
      (app : App) (armed : Option (Text × Text)) (c : ContactDto)
      → app.pending_delete ≡ armed
      → selected_contact v app ≡ some c
      → (t : Bool)
      → unwrap_or (map_option (λ a. text_eq a.0 c.public_key_prefix_hex) armed) false ≡ t
      → IsArming app (delete_selected app armed c) ⊎ IsRemoving app (delete_selected app armed c)
  unfolding delete_selected removals selected_prefix Arms Removes
  delete_cases app none c h s t e = inl ((c.public_key_prefix_hex, c.name), ground (arith, s))
  delete_cases app (some a) c h s false e =
      inl ((c.public_key_prefix_hex, c.name), ground (arith, e, s))
  delete_cases app (some a) c h s true e =
      inr (a, ground (arith, e, h, s, (text_eq_iff a.0 c.public_key_prefix_hex).0 e))

  confirm_cases :
      (app : App) (selected : Option ContactDto)
      → selected_contact v app ≡ selected
      → IsIdle (confirm_or_arm_delete v app)
        ⊎ IsArming app (confirm_or_arm_delete v app)
        ⊎ IsRemoving app (confirm_or_arm_delete v app)
  unfolding confirm_or_arm_delete removals IsIdle
  confirm_cases app none s = inl (rw (s, confirm_or_arm_delete) (refl, refl))
  confirm_cases app (some c) s =
      rw (s, confirm_or_arm_delete) (inr (delete_cases app app.pending_delete c refl s _ refl))

  module _ (p : Primitives) (start : App) where
    -- The latest key press of the past is a `d`, and the key prefix of the contact that was
    -- selected then is `prefix`.
    unfoldable pub WasArmed : Text → List Input → Type 0
    WasArmed prefix [] = ⊥
    WasArmed prefix (ui_event event ∷ past) = WasArmed prefix past
    WasArmed prefix (press key saved ∷ past) =
        (key ≡ char b'd') × (selected_prefix (state_after v p start past) ≡ some prefix)

    IsArmedBy : List Input → App → Type 0
    IsArmedBy past app =
        (app.pending_delete ≡ none)
        ⊎ ((a : Text × Text) × (app.pending_delete ≡ some a) × IsOnTable app × WasArmed a.0 past)

    -- The round asks for no removal, or, at a `d` on the contact that the key press before it, a
    -- `d` too, has armed, for that of this contact.
    unfoldable pub IsConfirmed : List Input → Input → List Text → Type 0
    IsConfirmed past input asked =
        (asked ≡ [])
        ⊎ ((prefix : Text) × (asked ≡ prefix ∷ [])
            × WasArmed prefix (input ∷ past)
            × WasArmed prefix past)

    abbrev Holds : List Input → Input → Effect → Type 0
    Holds past input e = IsConfirmed past input (removals e.sent) × IsArmedBy (input ∷ past) e.app

    abbrev now : List Input → App
    now past = state_after v p start past

    off_table-Holds :
        (past : List Input) (saved : Outcome (Unit {0}))
        → ¬ IsOnTable (now past)
        → IsArmedBy past (now past)
        → Holds past (press (char b'd') saved) (only (now past))
    unfolding IsArmedBy IsConfirmed removals
    off_table-Holds past saved off (inl n) = (inl refl, inl n)
    off_table-Holds past saved off (inr (a, e, t, w)) = absurd (off t)

    removing-Holds :
        (past : List Input) (saved : Outcome (Unit {0})) (e : Effect)
        → IsRemoving (now past) e
        → IsArmedBy past (now past)
        → Holds past (press (char b'd') saved) e
    unfolding IsArmedBy IsConfirmed Removes WasArmed
    removing-Holds past saved e (a, (pending, cleared, asked, selected)) (inl n) = cc (pending, n)
    removing-Holds past saved e (a, (pending, cleared, asked, selected)) (inr (b, armed, t, w)) =
        let same : b.0 ≡ a.0 = ground (arith, pending, armed) in
        (inr (a.0, asked, (refl, selected), subst (λ k. WasArmed k past) same w), inl cleared)

    confirm-Holds :
        (past : List Input) (saved : Outcome (Unit {0})) (e : Effect)
        → IsOnTable (now past)
        → IsIdle e ⊎ IsArming (now past) e ⊎ IsRemoving (now past) e
        → IsArmedBy past (now past)
        → Holds past (press (char b'd') saved) e
    unfolding IsIdle IsArmedBy IsConfirmed Arms WasArmed
    confirm-Holds past saved e t (inl idle) armed = (inl idle.1, inl idle.0)
    confirm-Holds past saved e t (inr (inl (a, (set, asked, selected, help, filter_open, page))))
          armed =
        (inl asked, inr (a, set, (help ∙ t.0, filter_open ∙ t.1, page ∙ t.2), (refl, selected)))
    confirm-Holds past saved e t (inr (inr r)) armed = removing-Holds past saved e r armed

    delete-Holds :
        (past : List Input) (saved : Outcome (Unit {0}))
        → IsArmedBy past (now past)
        → Holds past (press (char b'd') saved) (press_key v saved (now past) (char b'd'))
    delete-Holds past saved armed = elim (focus_cases (now past) saved _ _ _ refl refl refl) [
      | inl (e, off) ↦
          subst (Holds past (press (char b'd') saved)) (sym e)
            (off_table-Holds past saved off armed)
      | inr (t, e) ↦ subst (Holds past (press (char b'd') saved)) (sym e) (
          confirm-Holds past saved (confirm_or_arm_delete v (now past)) t
            (confirm_cases (now past) _ refl) armed)
    ]

    key-Holds :
        (past : List Input) (key : Key) (saved : Outcome (Unit {0}))
        → IsArmedBy past (now past)
        → Holds past (press key saved) (press_key v saved (now past) key)
    unfolding IsArmedBy IsConfirmed
    key-Holds past key saved armed = elim (Bool-cases (is_delete key)) [
      | inl e ↦
          subst (λ k. Holds past (press k saved) (press_key v saved (now past) k))
            (sym (is_delete-char key e)) (delete-Holds past saved armed)
      | inr e ↦ let quiet = press_key-IsQuiet v saved (now past) key e in (inl quiet.1, inl quiet.0)
    ]

    round-Holds :
        (past : List Input) (input : Input)
        → IsArmedBy past (now past)
        → Holds past input (round v p (now past) input)
    unfolding round WasArmed IsArmedBy IsConfirmed
    round-Holds past (press key saved) armed = key-Holds past key saved armed
    round-Holds past (ui_event event) armed =
        let kept = event-Keeps p (now past) event in
        (
          inl kept.1,
          elim armed [
            | inl n ↦ inl (kept.0.0 ∙ n)
            | inr (a, e, t, w) ↦
                inr (a, kept.0.0 ∙ e, (kept.0.1 ∙ t.0, kept.0.2 ∙ t.1, kept.0.3 ∙ t.2), w)
          ],
        )

    state_after-IsArmedBy :
        (past : List Input) → start.pending_delete ≡ none → IsArmedBy past (now past)
    unfolding state_after IsArmedBy
    state_after-IsArmedBy [] h = inl h
    state_after-IsArmedBy (input ∷ past) h =
        (round-Holds past input (state_after-IsArmedBy past h)).1

    -- Each round of the client, from a state in which no deletion is armed, asks the daemon to
    -- remove at most one contact. It does so only at a `d` on the selected contact, when the key
    -- press before it was a `d` too, and the contact selected then had the same key prefix.
    pub removal-IsConfirmed :
        (past : List Input) (input : Input)
        → start.pending_delete ≡ none
        → IsConfirmed past input (removals (round v p (state_after v p start past) input).sent)
    removal-IsConfirmed past input h = (round-Holds past input (state_after-IsArmedBy past h)).0
