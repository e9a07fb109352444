-- ===== src/Cli/App/Laws.antt =====
-- Which actions the tree of commands holds, against a list of what was registered.
use gitlab_ci_fargate_arm_dr.Prelude.{
  ◌≡◌, refl, sym, ap, ◌∙◌, Bytes, Option, none, some, List, [], ◌∷◌, ◌++◌, append_assoc, arith,
}
use mathlib.Core.List.{append-nil}
use gitlab_ci_fargate_arm_dr.Cli.App.{
  Library, ActionFunc, LibCommand, lib_command, LibCommands, nil, cons, Command, Category, category,
  Categories, no_categories, more, App, append, add_subcommand, to_action_func, compose_command,
  add_commands, with_action, compose_category, add_categories, register_category, register_command,
}

-- The names on the way to a command, and its action.
abbrev pub Entry : Library → Type 0
Entry L = List Bytes × ActionFunc L

module _ {L : Library} where
  abbrev pub entry : List Bytes → Option (ActionFunc L) → List (Entry L)
  entry path none = []
  entry path (some action) = (path, action) ∷ []

  abbrev pub name_of : LibCommand L → Bytes
  name_of (lib_command name _ _ _ _) = name

  abbrev pub subcommands_of : LibCommand L → LibCommands L
  subcommands_of (lib_command _ _ _ _ subs) = subs

  -- The actions of a tree, in the order of the commands; `path` leads to it.
  unfoldable mutual
    pub actions : List Bytes → LibCommand L → List (Entry L)
    actions path (lib_command name aliases action flags subs) =
        entry (path ++ (name ∷ [])) action ++ all_actions (path ++ (name ∷ [])) subs

    pub all_actions : List Bytes → LibCommands L → List (Entry L)
    all_actions path nil = []
    all_actions path (cons c cs) = actions path c ++ all_actions path cs

  -- What was registered, without the tree: each command with its handler, where its categories say.
  -- A command's action is on the library's context `c`: the handler is executed with `c` in the shared
  -- context, whatever was there.
  abbrev pub listed_command : List Bytes → Command L → List (Entry L)
  listed_command path c =
      (path ++ (name_of c.config ∷ []), λ cli s. c.handler.execute (record s { cli = some cli }))
      ∷ all_actions (path ++ (name_of c.config ∷ [])) (subcommands_of c.config)

  abbrev pub listed_commands : List Bytes → List (Command L) → List (Entry L)
  listed_commands path [] = []
  listed_commands path (c ∷ cs) = listed_command path c ++ listed_commands path cs

  unfoldable mutual
    unfolding actions

    pub listed : List Bytes → Category L → List (Entry L)
    listed path (category config subs commands) =
        actions path config
        ++ (listed_categories (path ++ (name_of config ∷ [])) subs
            ++ listed_commands (path ++ (name_of config ∷ [])) commands)

    pub listed_categories : List Bytes → Categories L → List (Entry L)
    listed_categories path no_categories = []
    listed_categories path (more c cs) = listed path c ++ listed_categories path cs

  all_actions-append :
      (path : List Bytes) (cs : LibCommands L) (c : LibCommand L)
      → all_actions path (append cs c) ≡ all_actions path cs ++ actions path c
  unfolding actions append
  all_actions-append path nil c = append-nil (actions path c)
  all_actions-append path (cons d ds) c = ground (
    arith,
    all_actions-append path ds c,
    append_assoc (actions path d) (all_actions path ds) (actions path c),
  )

  actions-add_subcommand :
      (path : List Bytes) (config c : LibCommand L)
      → actions path (add_subcommand config c)
        ≡ actions path config ++ actions (path ++ (name_of config ∷ [])) c
  unfolding actions
  actions-add_subcommand path (lib_command name aliases action flags subs) c =
      ap (λ x. entry (path ++ (name ∷ [])) action ++ x)
        (all_actions-append (path ++ (name ∷ [])) subs c)
      ∙ sym (
          append_assoc (entry (path ++ (name ∷ [])) action) (all_actions (path ++ (name ∷ [])) subs)
            (actions (path ++ (name ∷ [])) c))

  actions-with_action :
      (path : List Bytes) (config : LibCommand L) (action : ActionFunc L) (flags : List L.Flag)
      → actions path (with_action config action flags)
        ≡ (path ++ (name_of config ∷ []), action)
          ∷ all_actions (path ++ (name_of config ∷ [])) (subcommands_of config)
  unfolding actions
  actions-with_action path (lib_command _ _ _ _ _) action flags = refl

  actions-compose_command :
      (path : List Bytes) (c : Command L) → actions path (compose_command c) ≡ listed_command path c
  unfolding compose_command
  actions-compose_command path c =
      actions-with_action path c.config (to_action_func c)
        (L.get_flags_from_struct c.handler.struct)

  -- What one more subcommand, and then others, add to the actions.
  add_step :
      (path : List Bytes) (config c : LibCommand L) (own rest whole : List (Entry L))
      → actions (path ++ (name_of config ∷ [])) c ≡ own
      → whole ≡ actions path (add_subcommand config c) ++ rest
      → whole ≡ actions path config ++ (own ++ rest)
  add_step path config c own rest whole e h =
      h
      ∙ ap (λ x. x ++ rest)
          (actions-add_subcommand path config c ∙ ap (λ x. actions path config ++ x) e)
      ∙ append_assoc (actions path config) own rest

  actions-add_commands :
      (path : List Bytes) (config : LibCommand L) (cs : List (Command L))
      → actions path (add_commands config cs)
        ≡ actions path config ++ listed_commands (path ++ (name_of config ∷ [])) cs
  unfolding add_commands
  actions-add_commands path config [] = sym (append-nil (actions path config))
  actions-add_commands path (lib_command name aliases action flags subs) (c ∷ cs) =
      let config : LibCommand L = lib_command name aliases action flags subs in
      let inner = path ++ (name ∷ []) in
      add_step path config (compose_command c) (listed_command inner c) (listed_commands inner cs) _
        (actions-compose_command inner c)
        (actions-add_commands path (add_subcommand config (compose_command c)) cs)

  name_of-add_categories :
      (config : LibCommand L) (cs : Categories L)
      → name_of (add_categories config cs) ≡ name_of config
  unfolding compose_category
  name_of-add_categories config no_categories = refl
  name_of-add_categories (lib_command name aliases action flags subs) (more c cs) =
      name_of-add_categories
        (lib_command name aliases action flags (append subs (compose_category c))) cs

  mutual
    unfolding compose_category listed

    actions-compose_category :
        (path : List Bytes) (c : Category L) → actions path (compose_category c) ≡ listed path c
    actions-compose_category path (category config subs commands) =
        actions-add_commands path (add_categories config subs) commands
        ∙ ap
            (λ n.
              actions path (add_categories config subs)
              ++ listed_commands (path ++ (n ∷ [])) commands)
            (name_of-add_categories config subs)
        ∙ ap (λ x. x ++ listed_commands (path ++ (name_of config ∷ [])) commands)
            (actions-add_categories path config subs)
        ∙ append_assoc (actions path config)
            (listed_categories (path ++ (name_of config ∷ [])) subs)
            (listed_commands (path ++ (name_of config ∷ [])) commands)

    actions-add_categories :
        (path : List Bytes) (config : LibCommand L) (cs : Categories L)
        → actions path (add_categories config cs)
          ≡ actions path config ++ listed_categories (path ++ (name_of config ∷ [])) cs
    actions-add_categories path config no_categories = sym (append-nil (actions path config))
    actions-add_categories path (lib_command name aliases action flags subs) (more c cs) =
        let config : LibCommand L = lib_command name aliases action flags subs in
        let inner = path ++ (name ∷ []) in
        add_step path config (compose_category c) (listed inner c) (listed_categories inner cs) _
          (actions-compose_category inner c)
          (actions-add_categories path (add_subcommand config (compose_category c)) cs)

  -- Registration adds to the tree of the application the actions of the category's commands and those
  -- of its subcategories, or the one command, at their paths and behind what was there; each action
  -- puts the library's context into the shared one and executes the handler.
  pub register-actions :
      (a : App L) (c : Category L) (k : Command L)
      → (all_actions [] (register_category c a).commands ≡ all_actions [] a.commands ++ listed [] c)
        × (all_actions [] (register_command k a).commands
            ≡ all_actions [] a.commands ++ listed_command [] k)
  unfolding register_category register_command
  register-actions a c k = (
    all_actions-append [] a.commands (compose_category c)
        ∙ ap (λ x. all_actions [] a.commands ++ x) (actions-compose_category [] c),
    all_actions-append [] a.commands (compose_command k)
        ∙ ap (λ x. all_actions [] a.commands ++ x) (actions-compose_command [] k),
  )
