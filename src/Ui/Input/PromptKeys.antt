-- ===== src/Ui/Input/PromptKeys.antt =====
-- internal/ui/shell.go: `key` while the prompt is idle, and `submit`.
-- The history file is Ui/History's. Of the commands' functions there is `slashUse`, up to its request; the
-- others do not look at their arguments.
use vibepod.Base.{
  ℕ, suc, Bool, true, false, not, ◌&&◌, Option, none, some, List, [], ◌∷◌, ◌++◌, ◌-◌,
}
use vibepod.Base.{Text, ◌==◌, if◌then◌else◌, text_eq, nat_eq, codes, length, ltb}
use vibepod.Strings.{trim_prefix}
use vibepod.Strings.Space.{trim_space}
use vibepod.Ui.Input.Defs.{SlashCmd, slash_line}
use vibepod.Ui.Input.Area.{TextArea, item_at}
use vibepod.Ui.Input.MenuKeys.{
  Key, up, ctrl_p, shift_tab, down, ctrl_n, tab, esc, enter, ctrl_c, ctrl_d, ctrl_l, other, Menu,
  MenuItem, Prompt, Handled, menu_key, sync_slash_menu, offered,
}

-- What the key has the program do besides: ask for completions, clear the screen, end the shell,
-- run a command, move the session, say how a command is written, or send the line to the shell.
pub data Act : Type 0 where
  stays completes clears exits : Act
  runs : SlashCmd → List Text → Act
  moves : Text → Act
  usage : SlashCmd → Act
  sends : Text → Act

abbrev pub key_name : Key → Text
key_name up = codes "up"
key_name ctrl_p = codes "ctrl+p"
key_name shift_tab = codes "shift+tab"
key_name down = codes "down"
key_name ctrl_n = codes "ctrl+n"
key_name tab = codes "tab"
key_name esc = codes "esc"
key_name enter = codes "enter"
key_name ctrl_c = codes "ctrl+c"
key_name ctrl_d = codes "ctrl+d"
key_name ctrl_l = codes "ctrl+l"
key_name (other k) = k

unfoldable pub ends_in : List Text → Text → Bool
ends_in [] l = false
ends_in (x ∷ []) l = x == l
ends_in (x ∷ y ∷ xs) l = ends_in (y ∷ xs) l

unfoldable pub with_entry : List Text → Text → List Text
unfolding ends_in
with_entry hist l = if ends_in hist l then hist else hist ++ l ∷ []

-- `slashUse`; the machine is `args[0]`, a panic where there is none.
unfoldable pub use_machine : List Text → Option Act
use_machine [] = none
use_machine (t ∷ ts) =
    let target = trim_prefix t (codes "@") in
    some (moves (if target == codes "local" then codes "pod" else target))

unfoldable pub no_args : List Text → Bool
no_args [] = true
no_args (t ∷ ts) = false

-- `runSlash`; the other commands do not look at their arguments.
unfoldable pub run_slash : SlashCmd → List Text → Option Act
unfolding use_machine no_args
run_slash c args =
    if not (c.args == []) && no_args args
    then some (usage c)
    else if c.name == codes "use"
    then use_machine args
    else some (runs c args)

unfoldable pub act_of : Text → Option (SlashCmd × List Text) → Option Act
unfolding run_slash
act_of line none = some (sends line)
act_of line (some (c, args)) = run_slash c args

module _ {A : Type 0} (area : TextArea A) where
  -- The outcome of a key; `none` is a panic.
  abbrev pub Pressed : Type 0
  Pressed = Option (Prompt A × Act)

  unfoldable pub with_act : Prompt A → Option Act → Pressed
  with_act p none = none
  with_act p (some act) = some (p, act)

  -- `submit`
  unfoldable pub submit : Prompt A → Pressed
  unfolding with_entry act_of with_act
  submit p =
      let line = area.value p.input in
      if trim_space line == []
      then some (p, stays)
      else with_act
          (record p {
            input = area.reset p.input;
            menu = none;
            menu_dismissed = false;
            hist = with_entry p.hist line;
            hist_at = length (with_entry p.hist line);
            draft = [];
          })
          (act_of line (slash_line line))

  -- A key that is left to the text area.
  unfoldable pub typed : Key → Prompt A → Pressed
  typed k p =
      some (sync_slash_menu area (record p { input = area.update (key_name k) p.input }), stays)

  unfoldable pub recalled : Prompt A → Option Text → Pressed
  recalled p none = none
  recalled p (some l) = some (record p { input = area.set_value l p.input }, stays)

  unfoldable pub older : Prompt A → Pressed
  unfolding recalled item_at
  older p =
      recalled
        (record p {
          draft = if p.hist_at == length p.hist then area.value p.input else p.draft;
          hist_at = p.hist_at - 1;
        })
        (item_at p.hist (p.hist_at - 1))

  unfoldable pub newer : Prompt A → Pressed
  unfolding recalled item_at
  newer p =
      recalled (record p { hist_at = suc p.hist_at })
        (if suc p.hist_at == length p.hist then some p.draft else item_at p.hist (suc p.hist_at))

  unfoldable pub idle_key : Key → Prompt A → Pressed
  unfolding submit typed older newer
  idle_key enter p = submit p
  idle_key tab p = some (p, completes)
  idle_key ctrl_c p = some (
    record p {
      input = area.reset p.input;
      hist_at = length p.hist;
      menu = none;
      menu_dismissed = false;
    },
    stays,
  )
  idle_key ctrl_d p = if area.value p.input == [] then some (p, exits) else typed ctrl_d p
  idle_key ctrl_l p = some (p, clears)
  idle_key up p = if area.row p.input == 0 && ltb 0 p.hist_at then older p else typed up p
  idle_key down p =
      if suc (area.row p.input) == area.rows p.input && ltb p.hist_at (length p.hist)
      then newer p
      else typed down p
  idle_key ctrl_p p = typed ctrl_p p
  idle_key shift_tab p = typed shift_tab p
  idle_key ctrl_n p = typed ctrl_n p
  idle_key esc p = typed esc p
  idle_key (other k) p = typed (other k) p

  unfoldable pub after_menu : Key → Handled area → Pressed
  unfolding idle_key
  after_menu k none = none
  after_menu k (some (p, true)) = some (p, stays)
  after_menu k (some (p, false)) = idle_key k p

  unfoldable pub menu_first : Key → Option Menu → Prompt A → Pressed
  unfolding after_menu
  menu_first k none p = idle_key k p
  menu_first k (some mu) p = after_menu k (menu_key area k mu p)

  -- `key`, while the prompt is idle
  unfoldable pub press : Key → Prompt A → Pressed
  unfolding menu_first
  press k p = menu_first k p.menu p

  -- What happens to the prompt: a key, or the answer to a completion.
  pub data Happening : Type 0 where
    pressed : Key → Happening
    answered : ℕ → List MenuItem → Happening

  unfoldable pub kept_prompt : Pressed → Option (Prompt A)
  kept_prompt none = none
  kept_prompt (some (p, act)) = some p

  unfoldable pub prompt_step : Happening → Prompt A → Option (Prompt A)
  unfolding press offered kept_prompt
  prompt_step (answered from its) p = offered area from its p
  prompt_step (pressed k) p = kept_prompt (press k p)

  unfoldable pub next_prompt :
      Option (Prompt A) → (Prompt A → Option (Prompt A)) → Option (Prompt A)
  next_prompt none f = none
  next_prompt (some p) f = f p

  unfoldable pub prompt_steps : List Happening → Prompt A → Option (Prompt A)
  unfolding prompt_step next_prompt
  prompt_steps [] p = some p
  prompt_steps (h ∷ hs) p = next_prompt (prompt_step h p) (prompt_steps hs)
