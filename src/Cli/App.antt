-- ===== src/Cli/App.antt =====
-- The application (internal/cli/app.go, commands.go): its hooks, and the tree of commands that it
-- hands to the library github.com/urfave/cli, which parses the command line and calls them. Texts
-- of the help are left out.
pub mod Laws
use gitlab_ci_fargate_arm_dr.Prelude.{Bytes, Option, none, some, List, [], ◌∷◌, ◌++◌}
use gitlab_ci_fargate_arm_dr.Platform.{ok}
use gitlab_ci_fargate_arm_dr.Platform.Effects.{Action, ◌>>◌}
use gitlab_ci_fargate_arm_dr.Cli.{Hook, execute_hooks}

-- `cli.Context` and `cli.Flag` of the library, what else a hook or a handler may change, and what
-- `GetFlagsFromStruct` reads of a struct.
pub record Library : Type 1 where
  pub CliContext : Type 0
  pub Flag : Type 0
  pub State : Type 0
  pub Struct : Type 0
  pub get_flags_from_struct : Struct → List Flag

-- The one `Context` of the application, with the state.
pub record Shared (L : Library) : Type 0 where
  pub cli : Option L.CliContext
  pub state : L.State

-- A handler: a struct with its `Execute`.
pub record Handler (L : Library) : Type 0 where
  pub struct : L.Struct
  pub execute : Action (Shared L) (Unit {0})

abbrev pub ActionFunc : Library → Type 0
ActionFunc L = L.CliContext → Action (Shared L) (Unit {0})

-- `cli.Command` of the library: a name, aliases, an action, flags, subcommands.
mutual
  pub data LibCommand (L : Library) : Type 0 where
    lib_command :
        Bytes → List Bytes → Option (ActionFunc L) → List L.Flag → LibCommands L → LibCommand L

  pub data LibCommands (L : Library) : Type 0 where
    nil : LibCommands L
    cons : LibCommand L → LibCommands L → LibCommands L

pub record Command (L : Library) : Type 0 where
  pub config : LibCommand L
  pub handler : Handler L

mutual
  pub data Category (L : Library) : Type 0 where
    category : LibCommand L → Categories L → List (Command L) → Category L

  pub data Categories (L : Library) : Type 0 where
    no_categories : Categories L
    more : Category L → Categories L → Categories L

pub record App (L : Library) : Type 0 where
  pub flags : List L.Flag
  pub commands : LibCommands L
  pub before_functions : List (Hook (Shared L))
  pub after_functions : List (Hook (Shared L))

-- `New`
abbrev pub new_app : (L : Library) → App L
new_app L = record { flags = []; commands = nil; before_functions = []; after_functions = [] }

module _ {L : Library} where
  -- `append(commands, c)`
  unfoldable pub append : LibCommands L → LibCommand L → LibCommands L
  append nil c = cons c nil
  append (cons d ds) c = cons d (append ds c)

  abbrev pub add_subcommand : LibCommand L → LibCommand L → LibCommand L
  add_subcommand (lib_command name aliases action flags subs) c =
      lib_command name aliases action flags (append subs c)

  -- `makeContext`: the one context, with its `Cli` replaced.
  abbrev pub make_context : L.CliContext → Action (Shared L) (Unit {0})
  make_context c s = (ok tt, record s { cli = some c })

  -- `toActionFunc`
  abbrev pub to_action_func : Command L → ActionFunc L
  to_action_func command c = make_context c >> command.handler.execute

  abbrev pub with_action : LibCommand L → ActionFunc L → List L.Flag → LibCommand L
  with_action (lib_command name aliases _ _ subs) action flags =
      lib_command name aliases (some action) flags subs

  unfoldable pub compose_command : Command L → LibCommand L
  compose_command command =
      with_action command.config (to_action_func command)
        (L.get_flags_from_struct command.handler.struct)

  -- The loop over `SubCommands`.
  unfoldable pub add_commands : LibCommand L → List (Command L) → LibCommand L
  add_commands config [] = config
  add_commands config (c ∷ cs) = add_commands (add_subcommand config (compose_command c)) cs

  -- `composeCategory`, and its loop over `SubCategories`.
  unfoldable mutual
    unfolding add_commands

    pub compose_category : Category L → LibCommand L
    compose_category (category config subs commands) =
        add_commands (add_categories config subs) commands

    pub add_categories : LibCommand L → Categories L → LibCommand L
    add_categories config no_categories = config
    add_categories config (more c cs) =
        add_categories (add_subcommand config (compose_category c)) cs

  abbrev pub add_global_flags_from_struct : L.Struct → App L → App L
  add_global_flags_from_struct source a = record a {
    flags = a.flags ++ L.get_flags_from_struct source;
  }

  abbrev pub add_before_func : Hook (Shared L) → App L → App L
  add_before_func f a = record a { before_functions = a.before_functions ++ (f ∷ []) }

  abbrev pub add_after_func : Hook (Shared L) → App L → App L
  add_after_func f a = record a { after_functions = a.after_functions ++ (f ∷ []) }

  unfoldable pub register_command : Command L → App L → App L
  register_command c a = record a { commands = append a.commands (compose_command c) }

  unfoldable pub register_category : Category L → App L → App L
  register_category c a = record a { commands = append a.commands (compose_category c) }

  -- `app.Before` and `app.After`, closures that read the hooks of the application when they run.
  abbrev pub before : App L → ActionFunc L
  before a c = make_context c >> execute_hooks a.before_functions

  abbrev pub after : App L → ActionFunc L
  after a c = make_context c >> execute_hooks a.after_functions
