-- ===== src/Ui/Input/MenuSound.antt =====
-- internal/ui/commands.go: `syncSlashMenu`, `menuKey` and `completed` keep the menu's choice in range.
use vibepod.Base.{ℕ, zero, suc, not, Option, none, some, List, [], ◌∷◌, ◌+◌, ◌≤◌, ◌<◌}
use vibepod.Base.{arith, if_cases}
use vibepod.Base.{text_eq, nat_eq, codes, length}
use vibepod.Strings.{trim_prefix}
use vibepod.Ui.Input.Defs.{slash_cmds, find_slash}
use vibepod.Ui.Input.Area.{TextArea, item_at}
use native.Mathlib.Nat.{mod-lt, zero-lt-suc}
use vibepod.Ui.Input.Bounds.{IsThere, area_accept-IsThere, area_shared-IsThere}
use vibepod.Ui.Input.MenuKeys.{
  Key, up, ctrl_p, shift_tab, down, ctrl_n, tab, esc, enter, ctrl_c, ctrl_d, ctrl_l, other, Menu,
  MenuItem, Prompt, menu_key, sync_slash_menu, offered, chosen, kept_sel, slash_menu, is_completion,
  is_slash_start, slash_items, sel_up, sel_down, with_sel, accept_slash, tab_slash, enter_slash,
  runs_bare, passed, enter_word, with_input, taken, enter_completion, menu_enter, menu_tab,
}

-- The chosen item, or the first one, is there.
unfoldable pub HasItem : Option Menu → Type 0
unfolding chosen
HasItem none = Unit
HasItem (some mu) = chosen mu.sel < length mu.items

-- The menu has its chosen item, and the place in the history is one of its lines or the one behind them.
abbrev pub IsSound : {A : Type 0} → Prompt A → Type 0
IsSound p = HasItem p.menu × (p.hist_at ≤ length p.hist)

-- A result that is no panic, with a prompt that is sound.
unfoldable pub IsSoundWith : {A B : Type 0} → Option (Prompt A × B) → Type 0
IsSoundWith none = ⊥
IsSoundWith (some (p, b)) = IsSound p

unfoldable pub IsSoundResult : {A : Type 0} → Option (Prompt A) → Type 0
IsSoundResult none = ⊥
IsSoundResult (some p) = IsSound p

IsBelow : ℕ → Option ℕ → Type 0
IsBelow n none = ⊥
IsBelow n (some i) = i < n

sel_up-IsBelow : (n : ℕ) (s : Option ℕ) → 0 < n → IsBelow n (sel_up n s)
unfolding sel_up IsBelow
sel_up-IsBelow zero s h = absurd (omega arith)
sel_up-IsBelow (suc n) none h = omega arith
sel_up-IsBelow (suc n) (some i) h = mod-lt (i + n) (zero-lt-suc n)

sel_down-IsBelow : (n : ℕ) (s : Option ℕ) → 0 < n → IsBelow n (sel_down n s)
unfolding sel_down IsBelow
sel_down-IsBelow zero s h = absurd (omega arith)
sel_down-IsBelow (suc n) none h = omega arith
sel_down-IsBelow (suc n) (some i) h = mod-lt (suc i) (zero-lt-suc n)

kept_sel-below : (m : Option Menu) (n : ℕ) → 0 < n → kept_sel m n < n
unfolding kept_sel
kept_sel-below none n h = h
kept_sel-below (some mu) n h = ground arith

slash_menu-HasItem : (old : Option Menu) (its : List MenuItem) → HasItem (slash_menu old its)
unfolding slash_menu HasItem chosen
slash_menu-HasItem old [] = tt
slash_menu-HasItem old (it ∷ its) = kept_sel-below old (length (it ∷ its)) (omega arith)

-- An item that is there, whatever is done with it.
pub item_cases {ℓ} :
    {A B : Type 0} (P : B → Type ℓ) (f : Option A → B) (xs : List A) (i : ℕ)
    → i < length xs
    → ((x : A) → P (f (some x)))
    → P (f (item_at xs i))
unfolding item_at
item_cases P f [] i lt h = absurd (omega arith)
item_cases P f (x ∷ xs) zero lt h = h x
item_cases P f (x ∷ xs) (suc i) lt h = item_cases P f xs i (omega arith) h

module _ {A : Type 0} (area : TextArea A) where
  pub sync_slash_menu-IsSound : (p : Prompt A) → IsSound p → IsSound (sync_slash_menu area p)
  unfolding sync_slash_menu HasItem
  sync_slash_menu-IsSound p h =
      if_cases IsSound (is_completion p.menu) _ _ (λ _. h)
        (λ _.
          if_cases IsSound (not (is_slash_start (area.value p.input))) _ _ (λ _. (tt, h.1))
            (λ _.
              if_cases IsSound p.menu_dismissed _ _ (λ _. h)
                (λ _.
                  (slash_menu-HasItem p.menu (slash_items slash_cmds (area.value p.input)), h.1))))

  with_sel-IsSoundWith :
      (mu : Menu) (p : Prompt A) (s : Option ℕ)
      → IsSound p
      → IsBelow (length mu.items) s
      → IsSoundWith (with_sel area mu p s)
  unfolding with_sel IsBelow IsSoundWith HasItem chosen
  with_sel-IsSoundWith mu p none h b = b
  with_sel-IsSoundWith mu p (some i) h b = (b, h.1)

  passed-IsSoundWith : (mu : Menu) (p : Prompt A) → IsSound p → IsSoundWith (passed area mu p)
  unfolding passed IsSoundWith HasItem
  passed-IsSoundWith mu p h = if_cases IsSound mu.slash _ _ (λ _. h) (λ _. (tt, h.1))

  tab_slash-IsSoundWith :
      (p : Prompt A) (it : MenuItem) → IsSound p → IsSoundWith (tab_slash area p (some it))
  unfolding tab_slash IsSoundWith accept_slash HasItem
  tab_slash-IsSoundWith p it h = (tt, h.1)

  enter_slash-IsSoundWith :
      (p : Prompt A) (it : MenuItem) → IsSound p → IsSoundWith (enter_slash area p (some it))
  unfolding enter_slash IsSoundWith accept_slash HasItem
  enter_slash-IsSoundWith p it h =
      if_cases IsSoundWith (runs_bare area (find_slash (trim_prefix it.word (codes "/")))) _ _
        (λ _. (tt, h.1)) (λ _. (tt, h.1))

  with_input-IsSoundResult :
      (m : Option Menu) (p : Prompt A) (o : Option A)
      → HasItem m
      → IsSound p
      → IsThere o
      → IsSoundResult (with_input area m p o)
  unfolding with_input IsSoundResult
  with_input-IsSoundResult m p none b h t = t
  with_input-IsSoundResult m p (some a) b h t = (b, h.1)

  taken-IsSoundWith : (o : Option (Prompt A)) → IsSoundResult o → IsSoundWith (taken area o)
  unfolding taken IsSoundWith IsSoundResult
  taken-IsSoundWith none h = h
  taken-IsSoundWith (some p) h = h

  enter_completion-IsSoundWith :
      (mu : Menu) (p : Prompt A) (s : Option ℕ)
      → IsSound p
      → chosen s < length mu.items
      → IsSoundWith (enter_completion area mu p s)
  unfolding enter_completion enter_word chosen HasItem
  enter_completion-IsSoundWith mu p none h lt = passed-IsSoundWith mu p h
  enter_completion-IsSoundWith mu p (some i) h lt =
      item_cases IsSoundWith (enter_word area mu.from p) mu.items i lt (λ it.
        taken-IsSoundWith _ (
          with_input-IsSoundResult none p _ tt h
            (area_accept-IsThere area it.word mu.from p.input)))

  menu_enter-IsSoundWith :
      (mu : Menu) (p : Prompt A)
      → IsSound p
      → chosen mu.sel < length mu.items
      → IsSoundWith (menu_enter area mu p)
  unfolding menu_enter
  menu_enter-IsSoundWith mu p h lt =
      if_cases IsSoundWith mu.slash _ _
        (λ _.
          item_cases IsSoundWith (enter_slash area p) mu.items (chosen mu.sel) lt
            (λ it. enter_slash-IsSoundWith p it h))
        (λ _. enter_completion-IsSoundWith mu p mu.sel h lt)

  menu_tab-IsSoundWith :
      (mu : Menu) (p : Prompt A)
      → IsSound p
      → chosen mu.sel < length mu.items
      → IsSoundWith (menu_tab area mu p)
  unfolding menu_tab
  menu_tab-IsSoundWith mu p h lt =
      if_cases IsSoundWith mu.slash _ _
        (λ _.
          item_cases IsSoundWith (tab_slash area p) mu.items (chosen mu.sel) lt
            (λ it. tab_slash-IsSoundWith p it h))
        (λ _. with_sel-IsSoundWith mu p _ h (sel_down-IsBelow _ mu.sel (omega arith)))

  pub menu_key-IsSoundWith :
      (k : Key) (mu : Menu) (p : Prompt A)
      → IsSound p
      → chosen mu.sel < length mu.items
      → IsSoundWith (menu_key area k mu p)
  unfolding menu_key IsSoundWith HasItem
  menu_key-IsSoundWith up mu p h lt =
      with_sel-IsSoundWith mu p _ h (sel_up-IsBelow _ mu.sel (omega arith))
  menu_key-IsSoundWith ctrl_p mu p h lt =
      with_sel-IsSoundWith mu p _ h (sel_up-IsBelow _ mu.sel (omega arith))
  menu_key-IsSoundWith shift_tab mu p h lt =
      with_sel-IsSoundWith mu p _ h (sel_up-IsBelow _ mu.sel (omega arith))
  menu_key-IsSoundWith down mu p h lt =
      with_sel-IsSoundWith mu p _ h (sel_down-IsBelow _ mu.sel (omega arith))
  menu_key-IsSoundWith ctrl_n mu p h lt =
      with_sel-IsSoundWith mu p _ h (sel_down-IsBelow _ mu.sel (omega arith))
  menu_key-IsSoundWith tab mu p h lt = menu_tab-IsSoundWith mu p h lt
  menu_key-IsSoundWith esc mu p h lt = (tt, h.1)
  menu_key-IsSoundWith enter mu p h lt = menu_enter-IsSoundWith mu p h lt
  menu_key-IsSoundWith ctrl_c mu p h lt = passed-IsSoundWith mu p h
  menu_key-IsSoundWith ctrl_d mu p h lt = passed-IsSoundWith mu p h
  menu_key-IsSoundWith ctrl_l mu p h lt = passed-IsSoundWith mu p h
  menu_key-IsSoundWith (other k) mu p h lt = passed-IsSoundWith mu p h

  pub offered-IsSoundResult :
      (from : ℕ) (its : List MenuItem) (p : Prompt A)
      → IsSound p
      → IsSoundResult (offered area from its p)
  unfolding offered HasItem chosen
  offered-IsSoundResult from [] p h = unfold IsSoundResult in h
  offered-IsSoundResult from (it ∷ []) p h =
      with_input-IsSoundResult none p _ tt h (area_accept-IsThere area it.word from p.input)
  offered-IsSoundResult from (it ∷ jt ∷ its) p h =
      with_input-IsSoundResult _ p _ (omega arith) h (area_shared-IsThere area from _ p.input)
