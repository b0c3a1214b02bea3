-- ===== src/Setup.antt =====
-- start.py: the setup of a developer's machine. A command that is run, with its outcome, is recorded;
-- what is only printed is left out. The shell, the files and the answers at the prompt are arguments.
pub mod Order
pub mod Progress
use mbarara_auction.Prelude.{
  ℕ, String, ◌++◌, Option, none, some, is_some, Bool, true, false, not, ◌||◌, List, [], ◌∷◌,
  if◌then◌else◌, is_empty, strip,
}

-- the interpreter of `.venv`, or the one that runs the script
pub data Python : Type 0 where
  venv_python current_python : Python

pub data Command : Type 0 where
  make_venv : Command
  upgrade_pip : Python → Command
  install : Python → String → Command
  migrate : Python → Command
  has_superuser : Python → Command
  add_superuser : Python → String → String → String → Command
  seed : Python → Command
  runserver : Python → Command

-- exit status 0, another one, or FileNotFoundError
pub data RunStatus : Type 0 where
  zero_status other_status not_found : RunStatus

pub record Files : Type 0 where
  pub has_venv : Bool
  pub has_venv_python : Bool
  pub has_dev_requirements : Bool
  pub env : Option (List String)
  pub has_database : Bool

-- the commands run so far, newest first
pub record Machine : Type 0 where
  pub files : Files
  pub log : List (Command × RunStatus)

-- `exited` is sys.exit(1), which no handler of the script catches.
pub data Ended {ℓ} (A : Type ℓ) : Type ℓ where
  done : A → Machine → Ended A
  exited : Machine → Ended A

abbrev pub Script : Type 0 → Type 0
Script A = Machine → Ended A

abbrev pub pure : {A : Type 0} → A → Script A
pure a s = Ended.done a s

abbrev pub after : {A B : Type 0} → (A → Script B) → Ended A → Ended B
after f (Ended.done a s) = f a s
after f (Ended.exited s) = Ended.exited s

infixl 5 ◌>>=◌ ◌>>◌
abbrev pub ◌>>=◌ : {A B : Type 0} → Script A → (A → Script B) → Script B
◌>>=◌ m f s = after f (m s)

abbrev pub ◌>>◌ : {B : Type 0} → Script (Unit {0}) → Script B → Script B
m >> k = m >>= λ _. k

-- `print_error`
abbrev pub print_error : {A : Type 0} → Script A
print_error s = Ended.exited s

abbrev pub exit_if : Bool → Script (Unit {0})
exit_if true = print_error
exit_if false = pure tt

abbrev pub look : {A : Type 0} → (Files → A) → Script A
look f s = Ended.done (f s.files) s

abbrev pub write : (Files → Files) → Script (Unit {0})
write f s = Ended.done tt (record s { files = f s.files })

-- what was typed at the prompts, the arguments of the command line, and the token that `secrets` gives
pub record Invocation : Type 0 where
  pub username : String
  pub email : String
  pub password : String
  pub secret_key : String
  pub reset : Bool
  pub help : Bool
  pub no_seed : Bool
  pub old_python : Bool

abbrev pub typed_or : String → String → String
typed_or text default = if is_empty text then default else text

-- A run with `check=True` ends the script on a status that is not 0.
abbrev pub judge : Bool → RunStatus → Script Bool
judge check RunStatus.zero_status = pure true
judge check RunStatus.other_status = if check then print_error else pure false
judge check RunStatus.not_found = pure false

abbrev pub judge_server : RunStatus → Script (Unit {0})
judge_server RunStatus.not_found = print_error
judge_server _ = pure tt

abbrev pub record_run : Command → RunStatus × Files → Machine → Machine
record_run c (outcome, files) s = record { files = files; log = (c, outcome) ∷ s.log }

-- the lines of the file
abbrev pub env_content : String → List String
env_content token =
    "DJANGO_SETTINGS_MODULE=config.settings.development"
    ∷ ("SECRET_KEY=" ++ token)
    ∷ "DEBUG=True"
    ∷ "ALLOWED_HOSTS=localhost,127.0.0.1"
    ∷ ""
    ∷ "# SQLite database (no PostgreSQL needed)"
    ∷ "DATABASE_URL=sqlite:///db.sqlite3"
    ∷ ""
    ∷ "CSRF_TRUSTED_ORIGINS=http://localhost:8000"
    ∷ ""
    ∷ "# Email: console backend prints to terminal"
    ∷ "EMAIL_BACKEND=django.core.mail.backends.console.EmailBackend"
    ∷ "EMAIL_HOST="
    ∷ "EMAIL_PORT=587"
    ∷ "EMAIL_HOST_USER="
    ∷ "EMAIL_HOST_PASSWORD="
    ∷ "EMAIL_USE_TLS=True"
    ∷ ""
    ∷ "# Celery: run tasks synchronously (no Redis needed for dev)"
    ∷ "CELERY_TASK_ALWAYS_EAGER=True"
    ∷ "CELERY_TASK_EAGER_PROPAGATES=True"
    ∷ "REDIS_URL=redis://localhost:6379/0"
    ∷ ""
    ∷ "# Cache: use in-memory cache (fastest for dev)"
    ∷ "CACHE_BACKEND=locmem"
    ∷ ""
    ∷ "# Logging"
    ∷ "SQL_DEBUG_LEVEL=WARNING"
    ∷ []

-- `shell` gives the outcome of a command and the files that it leaves.
module _ (shell : Command → Files → RunStatus × Files) where
  -- `run_command`
  unfoldable pub run_command : Command → Bool → Script Bool
  run_command c check s = judge check (shell c s.files).0 (record_run c (shell c s.files) s)

  unfoldable pub get_python_executable : Script Python
  get_python_executable = do
    found ← look (λ f. f.has_venv_python)
    pure (if found then Python.venv_python else Python.current_python)

  unfoldable pub create_venv : Script Bool
  create_venv = do
    there ← look (λ f. f.has_venv)
    if there
        then pure true
        else (do made ← run_command Command.make_venv true; exit_if (not made); pure true)

  unfoldable pub install_dependencies : Script Bool
  install_dependencies = do
    python ← get_python_executable
    upgraded ← run_command (Command.upgrade_pip python) false
    dev ← look (λ f. f.has_dev_requirements)
    installed ←
        run_command
          (Command.install python (if dev then "requirements-dev.txt" else "requirements.txt")) true
    exit_if (not installed)
    pure true

  unfoldable pub create_env_file : String → Script Bool
  create_env_file token = do
    there ← look (λ f. is_some f.env)
    if there
        then pure true
        else (do write (λ f. record f { env = some (env_content token) }); pure true)

  unfoldable pub run_migrations : Script Bool
  run_migrations = do
    python ← get_python_executable
    migrated ← run_command (Command.migrate python) true
    exit_if (not migrated)
    pure true

  unfoldable pub ask_superuser : Invocation → Python → Script Bool
  ask_superuser i python = do
    exit_if (is_empty (strip i.password))
    run_command
        (Command.add_superuser python (typed_or (strip i.username) "admin")
          (typed_or (strip i.email) "admin@localhost") (strip i.password))
        false

  unfoldable pub create_superuser : Invocation → Script Bool
  create_superuser i = do
    python ← get_python_executable
    there ← run_command (Command.has_superuser python) false
    if there then pure true else ask_superuser i python

  unfoldable pub seed_demo_data : Invocation → Script Bool
  seed_demo_data i =
      if i.no_seed
      then pure true
      else (do python ← get_python_executable; run_command (Command.seed python) false)

  unfoldable pub reset_database : Invocation → Script (Unit {0})
  reset_database i = do
    there ← look (λ f. f.has_database)
    if there then write (λ f. record f { has_database = false }) else pure tt
    migrated ← run_migrations
    added ← create_superuser i
    pure tt

  -- Here the status is not looked at, and a missing interpreter is an error for `main`.
  unfoldable pub subprocess_run : Command → Script (Unit {0})
  subprocess_run c s = judge_server (shell c s.files).0 (record_run c (shell c s.files) s)

  unfoldable pub run_server : Script (Unit {0})
  run_server = do python ← get_python_executable; subprocess_run (Command.runserver python)

  unfoldable pub migrate_and_serve : Invocation → Script (Unit {0})
  migrate_and_serve i =
      if i.reset then (do reset_database i; seeded ← seed_demo_data i; run_server) else (do
        migrated ← run_migrations
        if not migrated
            then pure tt
            else (do added ← create_superuser i; seeded ← seed_demo_data i; run_server))

  -- the `try` of `main`
  unfoldable pub setup : Invocation → Script (Unit {0})
  setup i = do
    made ← create_venv
    if not made then pure tt else (do
      installed ← install_dependencies
      if not installed then pure tt else (do
        configured ← create_env_file i.secret_key
        if not configured then pure tt else migrate_and_serve i))

  -- `main`
  unfoldable pub main : Invocation → Script (Unit {0})
  main i = if i.help then pure tt else (if i.old_python then print_error else setup i)
