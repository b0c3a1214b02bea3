-- ===== src/Setup/Order.antt =====
-- start.py: what a run does before it works on the database.
use mbarara_auction.Prelude.{
  is_some, ◌≡◌, refl, String, Bool, true, false, not, [], if◌then◌else◌, is_empty, strip,
}
use mbarara_auction.Setup.{
  Python, Command, RunStatus, Files, Machine, Script, Invocation, typed_or, pure, ◌>>=◌, write,
  run_command, get_python_executable, create_venv, install_dependencies, create_env_file,
  run_migrations, ask_superuser, create_superuser, seed_demo_data, reset_database, subprocess_run,
  run_server, migrate_and_serve, setup, main,
}
use mbarara_auction.Setup.Progress.{
  needs_database, is_ordered, log_of, Begun, Installed, Ready, Leaves, bind-Leaves, pure-Leaves,
  Begun-Installed, Begun-Ready, judge-Left, judge_server-Left, Left-Begun, Begun-is_ordered, IfTrue,
  IfTrue-Begun, exit_unless-Leaves, if-Leaves, exit_if-Ready, Begun-early, Installed-early,
  Ready-run,
}

module _ (shell : Command → Files → RunStatus × Files) where
  -- a command on a database that is set up
  run_late-Ready :
      (c : Command) (s : Machine) → Ready s → Leaves (λ ok t. Ready t) (run_command shell c false) s
  unfolding run_command
  run_late-Ready c s r =
      let t = Ready-run c (shell c s.files) s r in
      record { left = judge-Left (λ ok t. Ready t) false _ _ (λ e. t) t (Begun-Ready _ t) }

  -- a command that needs none
  run_early-Begun :
      (c : Command) (check : Bool) (s : Machine)
      → needs_database c ≡ false
      → Begun s
      → Leaves (λ ok t. Begun t) (run_command shell c check) s
  unfolding run_command
  run_early-Begun c check s early b =
      let t = Begun-early c (shell c s.files) s early b in
      record { left = judge-Left (λ ok t. Begun t) check _ _ (λ e. t) t t }

  python-Leaves :
      {B : Type 0} {P : B → Machine → Type 0} (f : Python → Script B) (s : Machine)
      → ((python : Python) → Leaves P (f python) s)
      → Leaves P (get_python_executable shell >>= f) s
  unfolding get_python_executable
  python-Leaves f s go = record {
    left =
        (go (if s.files.has_venv_python then Python.venv_python else Python.current_python)).left;
  }

  create_venv-Begun : (s : Machine) → Begun s → Leaves (λ ok t. Begun t) (create_venv shell) s
  unfolding create_venv
  create_venv-Begun s b = record {
    left =
        (if-Leaves s.files.has_venv _ _ s (pure-Leaves true s b) (
          bind-Leaves _ _ s (run_early-Begun Command.make_venv true s refl b)
            (λ ok t h. exit_unless-Leaves Begun ok t (IfTrue-Begun ok t h)))).left;
  }

  install-Installed :
      (python : Python) (file : String) (s : Machine)
      → Begun s
      → Leaves (IfTrue Installed) (run_command shell (Command.install python file) true) s
  unfolding run_command
  install-Installed python file s b =
      let c = Command.install python file in
      let t = Begun-early c (shell c s.files) s refl b in
      record {
        left =
            judge-Left (IfTrue Installed) true _ _
              (λ e. record { ordered = t.ordered; installed = rw e refl }) t t;
      }

  migrate-Ready :
      (python : Python) (s : Machine)
      → Installed s
      → Leaves (IfTrue Ready) (run_command shell (Command.migrate python) true) s
  unfolding run_command
  migrate-Ready python s i =
      let c = Command.migrate python in
      let t = Installed-early c (shell c s.files) s refl i in
      record {
        left =
            judge-Left (IfTrue Ready) true _ _
              (λ e. record { ordered = t.ordered; installed = t.installed; migrated = rw e refl })
              (Begun-Installed _ t) (Begun-Installed _ t);
      }

  install_dependencies-Installed :
      (s : Machine) → Begun s → Leaves (λ ok t. Installed t) (install_dependencies shell) s
  unfolding install_dependencies
  install_dependencies-Installed s b = python-Leaves _ s (λ python.
      bind-Leaves _ _ s (run_early-Begun (Command.upgrade_pip python) false s refl b) (λ up t h.
        record {
          left =
              (bind-Leaves _ _ t (install-Installed python _ t h)
                (λ ok u k. exit_unless-Leaves Installed ok u k)).left;
        }))

  run_migrations-Ready :
      (s : Machine) → Installed s → Leaves (λ ok t. Ready t) (run_migrations shell) s
  unfolding run_migrations
  run_migrations-Ready s i = python-Leaves _ s (λ python.
      bind-Leaves _ _ s (migrate-Ready python s i) (λ ok t h. exit_unless-Leaves Ready ok t h))

  ask_superuser-Ready :
      (i : Invocation) (python : Python) (s : Machine)
      → Ready s
      → Leaves (λ ok t. Ready t) (ask_superuser shell i python) s
  unfolding ask_superuser
  ask_superuser-Ready i python s r = record {
    left =
        (bind-Leaves _ _ s (exit_if-Ready (is_empty (strip i.password)) s r) (λ u t h.
          run_late-Ready
            (Command.add_superuser python (typed_or (strip i.username) "admin")
              (typed_or (strip i.email) "admin@localhost") (strip i.password))
            t h)).left;
  }

  create_superuser-Ready :
      (i : Invocation) (s : Machine)
      → Ready s
      → Leaves (λ ok t. Ready t) (create_superuser shell i) s
  unfolding create_superuser
  create_superuser-Ready i s r = python-Leaves _ s (λ python.
      bind-Leaves _ _ s (run_late-Ready (Command.has_superuser python) s r) (λ there t h.
        if-Leaves there _ _ t (pure-Leaves true t h) (ask_superuser-Ready i python t h)))

  seed_demo_data-Ready :
      (i : Invocation) (s : Machine) → Ready s → Leaves (λ ok t. Ready t) (seed_demo_data shell i) s
  unfolding seed_demo_data
  seed_demo_data-Ready i s r =
      if-Leaves i.no_seed _ _ s (pure-Leaves true s r)
        (python-Leaves _ s (λ python. run_late-Ready (Command.seed python) s r))

  run_server-Ready : (s : Machine) → Ready s → Leaves (λ u t. Ready t) (run_server shell) s
  unfolding run_server subprocess_run
  run_server-Ready s r = python-Leaves _ s (λ python. record {
    left = judge_server-Left _ _ (Ready-run (Command.runserver python) _ s r);
  })

  finish-Ready :
      (i : Invocation) (s : Machine)
      → Ready s
      → Leaves (λ u t. Ready t) (seed_demo_data shell i >>= λ ok. run_server shell) s
  finish-Ready i s r =
      bind-Leaves _ _ s (seed_demo_data-Ready i s r) (λ ok t h. run_server-Ready t h)

  finish-Begun :
      (i : Invocation) (s : Machine)
      → Ready s
      → Leaves (λ u t. Begun t) (seed_demo_data shell i >>= λ ok. run_server shell) s
  finish-Begun i s r = record { left = Left-Begun _ (finish-Ready i s r).left }

  delete-Installed :
      (s : Machine)
      → Installed s
      → Leaves
          (λ u t. Installed t)
          (if s.files.has_database then write (λ f. record f { has_database = false }) else pure tt)
          s
  delete-Installed s b =
      if-Leaves s.files.has_database _ _ s
        (record { left = record { ordered = b.ordered; installed = b.installed } })
        (pure-Leaves tt s b)

  reset_database-Ready :
      (i : Invocation) (s : Machine)
      → Installed s
      → Leaves (λ u t. Ready t) (reset_database shell i) s
  unfolding reset_database
  reset_database-Ready i s b = record {
    left =
        (bind-Leaves _ _ s (delete-Installed s b) (λ u t h.
          bind-Leaves (run_migrations shell) _ t (run_migrations-Ready t h) (λ ok v k.
            bind-Leaves _ _ v (create_superuser-Ready i v k)
              (λ added w l. pure-Leaves tt w l)))).left;
  }

  migrate_and_serve-Begun :
      (i : Invocation) (s : Machine)
      → Installed s
      → Leaves (λ u t. Begun t) (migrate_and_serve shell i) s
  unfolding migrate_and_serve
  migrate_and_serve-Begun i s b =
      if-Leaves i.reset _ _ s
        (bind-Leaves _ _ s (reset_database-Ready i s b) (λ u t h. finish-Begun i t h))
        (bind-Leaves _ _ s (run_migrations-Ready s b) (λ migrated t h.
          if-Leaves (not migrated) _ _ t (pure-Leaves tt t (Begun-Ready t h))
            (bind-Leaves _ _ t (create_superuser-Ready i t h) (λ added u k. finish-Begun i u k))))

  create_env_file-Installed :
      (token : String) (s : Machine)
      → Installed s
      → Leaves (λ ok t. Installed t) (create_env_file shell token) s
  unfolding create_env_file
  create_env_file-Installed token s b = record {
    left =
        (if-Leaves (is_some s.files.env) _ _ s (pure-Leaves true s b)
          (record { left = record { ordered = b.ordered; installed = b.installed } })).left;
  }

  setup-Begun : (i : Invocation) (s : Machine) → Begun s → Leaves (λ u t. Begun t) (setup shell i) s
  unfolding setup
  setup-Begun i s b = bind-Leaves _ _ s (create_venv-Begun s b) (λ made t h.
      if-Leaves (not made) _ _ t (pure-Leaves tt t h) (
        bind-Leaves _ _ t (install_dependencies-Installed t h) (λ installed u k.
          if-Leaves (not installed) _ _ u (pure-Leaves tt u (Begun-Installed u k)) (
            bind-Leaves _ _ u (create_env_file-Installed i.secret_key u k) (λ configured v l.
              if-Leaves (not configured) _ _ v (pure-Leaves tt v (Begun-Installed v l))
                (migrate_and_serve-Begun i v l))))))

  -- Whatever the shell answers and whatever the arguments are, every command of a run of start.py
  -- that works on the site's database (the superuser, the demo data, the server) comes after a
  -- `pip install` of the requirements and a `migrate` that both ended with status 0.
  pub main-is_ordered :
      (i : Invocation) (files : Files)
      → is_ordered (log_of (main shell i (record { files = files; log = [] }))) ≡ true
  unfolding main
  main-is_ordered i files =
      let s : Machine = record { files = files; log = [] } in
      Begun-is_ordered _
        (if-Leaves i.help (pure tt) _ s (pure-Leaves tt s (record { ordered = refl })) (
          if-Leaves i.old_python _ _ s (record { left = record { ordered = refl } })
            (setup-Begun i s (record { ordered = refl })))).left
