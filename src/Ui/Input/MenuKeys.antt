-- ===== src/Ui/Input/MenuKeys.antt =====
-- internal/ui/commands.go: the menu over the line, `syncSlashMenu` and `menuKey`.
-- `mu.sel` is -1 until something is chosen: `none` here. A division by no items and an item out of range
-- are panics in Go: `none` as a result.
use vibepod.Base.{
  ℕ, zero, suc, Bool, true, false, not, ◌&&◌, ◌||◌, Option, none, some, List, [], ◌∷◌, ◌++◌, ◌+◌,
  ◌-◌, ◌%◌, map,
}
use vibepod.Base.{Text, ◌==◌, if◌then◌else◌, text_eq, nat_eq, codes, length, contains, ltb}
use vibepod.Strings.{has_prefix, trim_prefix}
use vibepod.Strings.Space.{trim_space}
use vibepod.Ui.Input.Defs.{SlashCmd, slash_cmds, find_slash}
use vibepod.Ui.Input.Area.{TextArea, item_at, area_accept, area_shared}

-- `menuItem`
pub record MenuItem : Type 0 where
  pub word : Text
  pub label : Text
  pub desc : Text

-- `menu`
pub record Menu : Type 0 where
  pub items : List MenuItem
  pub sel : Option ℕ
  pub from : ℕ
  pub slash : Bool

-- The keys that the code tells apart; every other key is its name.
pub data Key : Type 0 where
  up ctrl_p shift_tab down ctrl_n tab esc enter ctrl_c ctrl_d ctrl_l : Key
  other : Text → Key

-- What `shellModel` keeps of the line being written.
pub record Prompt (A : Type 0) : Type 0 where
  pub input : A
  pub menu : Option Menu
  pub menu_dismissed : Bool
  pub hist : List Text
  pub hist_at : ℕ
  pub draft : Text

-- The commands whose name, behind its slash, begins with the line.
unfoldable pub slash_items : List SlashCmd → Text → List MenuItem
slash_items [] v = []
slash_items (c ∷ cs) v =
    let rest = slash_items cs v in
    if has_prefix (codes "/" ++ c.name) v
    then record {
      word = codes "/" ++ c.name;
      label = trim_space (codes "/" ++ c.name ++ codes " " ++ c.args);
      desc = c.help;
    }
      ∷ rest
    else rest

unfoldable pub count_slashes : Text → ℕ
count_slashes [] = 0
count_slashes (c ∷ s) = if c == b'/' then suc (count_slashes s) else count_slashes s

unfoldable pub is_slash_start : Text → Bool
unfolding count_slashes
is_slash_start v =
    has_prefix v (codes "/")
    && not (contains v 0x20 || contains v 0x09 || contains v 0x0a)
    && not (ltb 1 (count_slashes v))

unfoldable pub chosen : Option ℕ → ℕ
chosen none = 0
chosen (some i) = i

-- `sel` of the menu that is opened: the old one while it is in range.
unfoldable pub kept_sel : Option Menu → ℕ → ℕ
unfolding chosen
kept_sel none n = 0
kept_sel (some mu) n = if ltb (chosen mu.sel) n then chosen mu.sel else 0

unfoldable pub slash_menu : Option Menu → List MenuItem → Option Menu
unfolding kept_sel
slash_menu old [] = none
slash_menu old (it ∷ its) = some (record {
  items = it ∷ its;
  sel = some (kept_sel old (length (it ∷ its)));
  from = 0;
  slash = true;
})

unfoldable pub is_completion : Option Menu → Bool
is_completion none = false
is_completion (some mu) = not mu.slash

-- `(mu.sel - 1 + n) % n` and `(mu.sel + 1) % n`, in Go's arithmetic.
unfoldable pub sel_up : ℕ → Option ℕ → Option ℕ
sel_up zero sel = none
sel_up (suc n) none = some (n - 1)
sel_up (suc n) (some i) = some ((i + n) % suc n)

unfoldable pub sel_down : ℕ → Option ℕ → Option ℕ
sel_down zero sel = none
sel_down (suc n) none = some 0
sel_down (suc n) (some i) = some (suc i % suc n)

module _ {A : Type 0} (area : TextArea A) where
  -- `syncSlashMenu`
  unfoldable pub sync_slash_menu : Prompt A → Prompt A
  unfolding is_completion is_slash_start slash_menu slash_items
  sync_slash_menu p =
      let v = area.value p.input in
      if is_completion p.menu
      then p
      else if not (is_slash_start v)
      then record p { menu = none; menu_dismissed = false }
      else if p.menu_dismissed
      then p
      else record p { menu = slash_menu p.menu (slash_items slash_cmds v) }

  unfoldable pub takes_args : Option SlashCmd → Bool
  takes_args none = false
  takes_args (some c) = not (c.args == [])

  unfoldable pub runs_bare : Option SlashCmd → Bool
  runs_bare none = false
  runs_bare (some c) = c.args == []

  -- `acceptSlash`
  unfoldable pub accept_slash : MenuItem → Prompt A → Prompt A
  unfolding takes_args
  accept_slash it p =
      let v =
        if takes_args (find_slash (trim_prefix it.word (codes "/")))
        then it.word ++ codes " "
        else it.word in
      record p { input = area.set_value v p.input; menu = none }

  -- The outcome of a key for the menu: the prompt, and whether the key was the menu's.
  abbrev pub Handled : Type 0
  Handled = Option (Prompt A × Bool)

  unfoldable pub with_sel : Menu → Prompt A → Option ℕ → Handled
  with_sel mu p none = none
  with_sel mu p (some i) = some (record p { menu = some (record mu { sel = some i }) }, true)

  unfoldable pub tab_slash : Prompt A → Option MenuItem → Handled
  unfolding accept_slash
  tab_slash p none = none
  tab_slash p (some it) = some (accept_slash it p, true)

  unfoldable pub enter_slash : Prompt A → Option MenuItem → Handled
  unfolding accept_slash runs_bare
  enter_slash p none = none
  enter_slash p (some it) =
      if runs_bare (find_slash (trim_prefix it.word (codes "/")))
      then some (record p { input = area.set_value it.word p.input; menu = none }, false)
      else some (accept_slash it p, true)

  unfoldable pub passed : Menu → Prompt A → Handled
  passed mu p = some (if mu.slash then p else record p { menu = none }, false)

  -- The prompt with another input, and with a menu over it or none.
  unfoldable pub with_input : Option Menu → Prompt A → Option A → Option (Prompt A)
  with_input m p none = none
  with_input m p (some a) = some (record p { input = a; menu = m })

  unfoldable pub taken : Option (Prompt A) → Handled
  taken none = none
  taken (some p) = some (p, true)

  unfoldable pub enter_word : ℕ → Prompt A → Option MenuItem → Handled
  unfolding with_input taken
  enter_word from p none = none
  enter_word from p (some it) = taken (with_input none p (area_accept area it.word from p.input))

  unfoldable pub enter_completion : Menu → Prompt A → Option ℕ → Handled
  unfolding enter_word passed item_at
  enter_completion mu p none = passed mu p
  enter_completion mu p (some i) = enter_word mu.from p (item_at mu.items i)

  unfoldable pub menu_enter : Menu → Prompt A → Handled
  unfolding enter_slash enter_completion chosen item_at
  menu_enter mu p =
      if mu.slash
      then enter_slash p (item_at mu.items (chosen mu.sel))
      else enter_completion mu p mu.sel

  unfoldable pub menu_tab : Menu → Prompt A → Handled
  unfolding tab_slash with_sel sel_down chosen item_at
  menu_tab mu p =
      if mu.slash
      then tab_slash p (item_at mu.items (chosen mu.sel))
      else with_sel mu p (sel_down (length mu.items) mu.sel)

  -- `menuKey`
  unfoldable pub menu_key : Key → Menu → Prompt A → Handled
  unfolding with_sel sel_up sel_down menu_tab menu_enter passed
  menu_key up mu p = with_sel mu p (sel_up (length mu.items) mu.sel)
  menu_key ctrl_p mu p = with_sel mu p (sel_up (length mu.items) mu.sel)
  menu_key shift_tab mu p = with_sel mu p (sel_up (length mu.items) mu.sel)
  menu_key down mu p = with_sel mu p (sel_down (length mu.items) mu.sel)
  menu_key ctrl_n mu p = with_sel mu p (sel_down (length mu.items) mu.sel)
  menu_key tab mu p = menu_tab mu p
  menu_key esc mu p = some (record p { menu = none; menu_dismissed = mu.slash }, true)
  menu_key enter mu p = menu_enter mu p
  menu_key ctrl_c mu p = passed mu p
  menu_key ctrl_d mu p = passed mu p
  menu_key ctrl_l mu p = passed mu p
  menu_key (other k) mu p = passed mu p

  -- `completed`, for an answer that is still wanted: what it offers.
  unfoldable pub offered : ℕ → List MenuItem → Prompt A → Option (Prompt A)
  unfolding with_input
  offered from [] p = some p
  offered from (it ∷ []) p = with_input none p (area_accept area it.word from p.input)
  offered from (it ∷ jt ∷ its) p =
      with_input (some (record { items = it ∷ jt ∷ its; sel = none; from = from; slash = false })) p
        (area_shared area from (map (λ i. i.word) (it ∷ jt ∷ its)) p.input)
