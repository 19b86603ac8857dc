-- ===== src/Tui/Quitting.antt =====
-- crates/tui/src/app.rs, `handle_key`: what its action says.
use kyora.Base.{
  ◌≡◌, refl, ◌∙◌, ◌⊎◌, inl, inr, Bool, true, false, not, ◌&&◌, ◌||◌, arith, codes, contains, ◌==◌,
  Bool-cases, if◌then◌else◌,
}
use package.kyora.Tui.App.{Action, App, active}
use package.kyora.Tui.Keys.{
  KeyCode, KeyEvent, Editor, is_char, is_input, is_blank, join_lines, confirm, ask_quit, submit,
  pass, browse, press, move_selection, plain_key, handle_key,
}

-- The keys that confirm a quit, and those that dismiss the question.
abbrev pub confirming : KeyCode → Bool
confirming KeyCode.enter = true
confirming (KeyCode.char c) = contains c (codes "yY")
confirming _ = false

abbrev pub dismissing : KeyCode → Bool
dismissing KeyCode.esc = true
dismissing (KeyCode.char c) = contains c (codes "nN")
dismissing _ = false

module _ {E : Type 0} (editor : Editor E) where
  -- The question after a key that asks nothing: a key press in it does not confirm, and closes it
  -- exactly when it dismisses; and it is open only if it was or a node runs.
  abbrev pub Asked : Bool → KeyCode → App E → App E → Type 0
  Asked release c a b =
      ((release ≡ true)
        ⊎ ((a.confirm_quit ≡ false)
            ⊎ ((confirming c ≡ false) × (b ≡ record a { confirm_quit = not (dismissing c) }))))
      × ((b.confirm_quit ≡ false) ⊎ ((a.confirm_quit ≡ true) ⊎ (active a ≡ true)))

  -- What an action says of the key and of the interface before and after it.
  abbrev pub Answers : Bool → KeyCode → App E → Action × App E → Type 0
  Answers release c a (Action.nothing, b) = (b.nodes ≡ a.nodes) × Asked release c a b
  Answers release c a (Action.quit, b) =
      (b ≡ a)
      × (release ≡ false)
      × (((a.confirm_quit ≡ true) × (confirming c ≡ true))
          ⊎ ((a.confirm_quit ≡ false) × (active a ≡ false)))
  Answers release c a (Action.cancel, b) =
      (b ≡ a) × (release ≡ false) × (a.confirm_quit ≡ false) × (a.help ≡ false)
  Answers release c a (Action.submit text, b) =
      (release ≡ false)
      × (a.confirm_quit ≡ false)
      × (text ≡ join_lines (editor.lines a.input))
      × (is_blank text ≡ false)
      × (active a ≡ false)
      × (b ≡ record a { input = editor.empty })

  module _ (a : App E) where
    -- The question is already open.
    stays :
        (c : KeyCode)
        → a.confirm_quit ≡ true
        → confirming c ≡ false
        → dismissing c ≡ false
        → Answers false c a (Action.nothing, a)
    stays c h n d = (refl, (inr (inr (n, rw (d, ← h) refl)), inr (inl h)))

    leaves :
        (c : KeyCode)
        → a.confirm_quit ≡ true
        → confirming c ≡ false
        → dismissing c ≡ true
        → Answers false c a (Action.nothing, record a { confirm_quit = false })
    leaves c h n d = (refl, (inr (inr (n, rw d refl)), inl refl))

    confirm-Answers : (c : KeyCode) → a.confirm_quit ≡ true → Answers false c a (confirm c a)
    unfolding confirm
    confirm-Answers KeyCode.enter h = (refl, refl, inl (h, refl))
    confirm-Answers KeyCode.esc h = leaves KeyCode.esc h refl refl
    confirm-Answers (KeyCode.char c) h =
        ground (arith, h, stays (KeyCode.char c) h, leaves (KeyCode.char c) h)
    confirm-Answers KeyCode.tab h = stays KeyCode.tab h refl refl
    confirm-Answers KeyCode.back_tab h = stays KeyCode.back_tab h refl refl
    confirm-Answers KeyCode.up h = stays KeyCode.up h refl refl
    confirm-Answers KeyCode.down h = stays KeyCode.down h refl refl
    confirm-Answers KeyCode.page_up h = stays KeyCode.page_up h refl refl
    confirm-Answers KeyCode.page_down h = stays KeyCode.page_down h refl refl
    confirm-Answers KeyCode.end_key h = stays KeyCode.end_key h refl refl
    confirm-Answers KeyCode.other h = stays KeyCode.other h refl refl

    browse-nodes : (c : KeyCode) → (browse c a).nodes ≡ a.nodes
    unfolding browse move_selection
    browse-nodes KeyCode.up = ground arith
    browse-nodes KeyCode.down = ground arith
    browse-nodes KeyCode.enter = refl
    browse-nodes (KeyCode.char c) = ground arith
    browse-nodes KeyCode.page_up = refl
    browse-nodes KeyCode.page_down = refl
    browse-nodes KeyCode.end_key = refl
    browse-nodes KeyCode.esc = refl
    browse-nodes KeyCode.tab = refl
    browse-nodes KeyCode.back_tab = refl
    browse-nodes KeyCode.other = refl

    pass-nodes : (k : KeyEvent) → (pass editor k a).nodes ≡ a.nodes
    unfolding pass
    pass-nodes k = ground (arith, browse-nodes k.code)

    browse-confirm : (c : KeyCode) → (browse c a).confirm_quit ≡ a.confirm_quit
    unfolding browse move_selection
    browse-confirm c = ground arith

    pass-confirm : (k : KeyEvent) → (pass editor k a).confirm_quit ≡ a.confirm_quit
    unfolding pass
    pass-confirm k = ground (arith, browse-confirm k.code)

    -- A key without a question before or after it that changes no node.
    quiet :
        (c : KeyCode) (b : App E)
        → a.confirm_quit ≡ false
        → b.nodes ≡ a.nodes
        → b.confirm_quit ≡ a.confirm_quit
        → Answers false c a (Action.nothing, b)
    quiet c b h n e = (n, (inr (inl h), inl (e ∙ h)))

    submit-Answers : (c : KeyCode) → a.confirm_quit ≡ false → Answers false c a (submit editor a)
    unfolding submit
    submit-Answers c h = ground (arith, h)

    press-Answers :
        (k : KeyEvent) (c : KeyCode)
        → a.confirm_quit ≡ false
        → a.help ≡ false
        → Answers false c a (press editor k c a)
    unfolding press
    press-Answers k KeyCode.tab h g = quiet KeyCode.tab _ h refl refl
    press-Answers k KeyCode.back_tab h g = quiet KeyCode.back_tab _ h refl refl
    press-Answers k KeyCode.esc h g = (refl, refl, h, g)
    press-Answers k KeyCode.enter h g = elim (Bool-cases (is_input a.focus && not k.shift)) [
      | inl e ↦ rw e (submit-Answers KeyCode.enter h)
      | inr e ↦ rw e (quiet KeyCode.enter (pass editor k a) h (pass-nodes k) (pass-confirm k))
    ]
    press-Answers k (KeyCode.char c) h g =
        elim (Bool-cases (c == 106 && (k.control && is_input a.focus))) [
          | inl e ↦ rw e (
              quiet (KeyCode.char c) (record a { input = editor.insert_newline a.input }) h refl
                refl)
          | inr e ↦
              rw e (quiet (KeyCode.char c) (pass editor k a) h (pass-nodes k) (pass-confirm k))
        ]
    press-Answers k KeyCode.up h g = quiet KeyCode.up _ h (pass-nodes k) (pass-confirm k)
    press-Answers k KeyCode.down h g = quiet KeyCode.down _ h (pass-nodes k) (pass-confirm k)
    press-Answers k KeyCode.page_up h g = quiet KeyCode.page_up _ h (pass-nodes k) (pass-confirm k)
    press-Answers k KeyCode.page_down h g =
        quiet KeyCode.page_down _ h (pass-nodes k) (pass-confirm k)
    press-Answers k KeyCode.end_key h g = quiet KeyCode.end_key _ h (pass-nodes k) (pass-confirm k)
    press-Answers k KeyCode.other h g = quiet KeyCode.other _ h (pass-nodes k) (pass-confirm k)

    plain_key-Answers :
        (k : KeyEvent) → a.confirm_quit ≡ false → Answers false k.code a (plain_key editor k a)
    unfolding plain_key
    plain_key-Answers k h = ground (arith, press-Answers k k.code h)

    ask_quit-Answers : (c : KeyCode) → a.confirm_quit ≡ false → Answers false c a (ask_quit a)
    unfolding ask_quit
    ask_quit-Answers c h = ground (arith, h)

    released : (c : KeyCode) → Answers true c a (Action.nothing, a)
    released c = elim (Bool-cases a.confirm_quit) [
      | inl e ↦ (refl, (inl refl, inr (inl e)))
      | inr e ↦ (refl, (inl refl, inl e))
    ]

    -- The answer to a press, with the question open or not.
    pressed-Answers :
        (k : KeyEvent)
        → Answers false k.code a (
            if a.confirm_quit
            then confirm k.code a
            else if k.control && is_char 99 k.code
                || is_char 113 k.code && (not (is_input a.focus) && not a.help)
            then ask_quit a
            else plain_key editor k a)
    pressed-Answers k = elim (Bool-cases a.confirm_quit) [
      | inl e ↦ simp e (confirm-Answers k.code e)
      | inr e ↦ ground (arith, e, ask_quit-Answers k.code e, plain_key-Answers k e)
    ]

    -- What a key asks of the event loop. `quit`: the key is pressed, and either the question whether
    -- to quit is open and the key is Enter, y or Y, or the question is not open and no node runs.
    -- `submit`: the key is pressed, no question is open and no node runs, the prompt is the editor's
    -- lines and not blank, and the editor is emptied. `cancel`: the key is pressed and no dialog is
    -- open. In these nothing else changes. A key that asks nothing changes no node; pressed while the
    -- question is open, it is none of Enter, y and Y, and changes only that Esc, n and N close the
    -- question; and the question is open after it only if it was before or a node runs.
    pub handle_key_lem : (k : KeyEvent) → Answers k.release k.code a (handle_key editor k a)
    unfolding handle_key
    handle_key_lem k = elim (Bool-cases k.release) [
      | inl e ↦ simp e (released k.code)
      | inr e ↦ simp e (pressed-Answers k)
    ]
