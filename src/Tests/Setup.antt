-- ===== src/Tests/Setup.antt =====
-- start.py: a first setup, run in a shell whose commands succeed.
use mbarara_auction.Prelude.{none, ◌≡◌, refl, strip, true, false, [], ◌∷◌}
use mbarara_auction.Setup.{
  Python, Command, RunStatus, Files, Invocation, main, setup, create_venv, run_command,
  install_dependencies, get_python_executable, create_env_file, migrate_and_serve, run_migrations,
  create_superuser, ask_superuser, seed_demo_data, run_server, subprocess_run,
}
use mbarara_auction.Setup.Progress.{log_of, is_ordered}
use mbarara_auction.Setup.Order.{main-is_ordered}

abbrev fresh_checkout : Files
fresh_checkout = record {
  has_venv = false;
  has_venv_python = false;
  has_dev_requirements = true;
  env = none;
  has_database = false;
}

abbrev answers : Invocation
answers = record {
  username = "";
  email = "";
  password = "secret";
  secret_key = "token";
  reset = false;
  help = false;
  no_seed = false;
  old_python = false;
}

-- There is no superuser yet, and the upgrade of pip fails.
abbrev answer : Command → Files → RunStatus × Files
answer Command.make_venv files =
    (RunStatus.zero_status, record files { has_venv = true; has_venv_python = true })
answer (Command.upgrade_pip python) files = (RunStatus.other_status, files)
answer (Command.has_superuser python) files = (RunStatus.other_status, files)
answer _ files = (RunStatus.zero_status, files)

main_first :
    log_of (main answer answers (record { files = fresh_checkout; log = [] }))
    ≡ (Command.runserver Python.venv_python, RunStatus.zero_status)
      ∷ (Command.seed Python.venv_python, RunStatus.zero_status)
      ∷ (
        Command.add_superuser Python.venv_python "admin" "admin@localhost" "secret",
        RunStatus.zero_status,
      )
      ∷ (Command.has_superuser Python.venv_python, RunStatus.other_status)
      ∷ (Command.migrate Python.venv_python, RunStatus.zero_status)
      ∷ (Command.install Python.venv_python "requirements-dev.txt", RunStatus.zero_status)
      ∷ (Command.upgrade_pip Python.venv_python, RunStatus.other_status)
      ∷ (Command.make_venv, RunStatus.zero_status)
      ∷ []
unfolding main setup create_venv run_command install_dependencies get_python_executable
    create_env_file migrate_and_serve run_migrations create_superuser ask_superuser strip
    seed_demo_data run_server subprocess_run
main_first = refl

main-is_ordered_example :
    is_ordered (log_of (main answer answers (record { files = fresh_checkout; log = [] }))) ≡ true
main-is_ordered_example = main-is_ordered answer answers fresh_checkout
