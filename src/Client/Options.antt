-- ===== src/Client/Options.antt =====
-- The loop over the options in volans.c.
use volans.Prelude.{◌≡◌, refl, ◌∙◌, Bool, true, false, Option, none, some, List, [], ◌∷◌}
use volans.Client.{
  Opt, opt_help, opt_config, opt_no_daemon, opt_daemon, opt_verbose, opt_version, opt_unknown,
  opt_other, Mode, exits, runs, parse_options,
}

-- The first option that ends the program, as whether it ends with success.
abbrev pub first_ending : List Opt → Option Bool
first_ending [] = none
first_ending (opt_help ∷ os) = some true
first_ending (opt_unknown ∷ os) = some false
first_ending (opt_other ∷ os) = some false
first_ending (_ ∷ os) = first_ending os

-- The last option that says whether the server is a daemon.
abbrev pub last_daemon : List Opt → Option Bool → Option Bool
last_daemon [] found = found
last_daemon (opt_no_daemon ∷ os) found = last_daemon os (some false)
last_daemon (opt_daemon ∷ os) found = last_daemon os (some true)
last_daemon (_ ∷ os) found = last_daemon os found

abbrev pub mode_of : Bool × Bool → Option Bool → Mode
mode_of (server, daemonize) none = runs server daemonize
mode_of defaults (some daemonize) = runs true daemonize

abbrev pub outcome_from : Bool × Bool → List Opt → Option Bool → Option Bool → Mode
outcome_from defaults os found (some success) = exits success
outcome_from defaults os found none = mode_of defaults (last_daemon os found)

abbrev pub outcome : Bool × Bool → List Opt → Option Bool → Mode
outcome defaults os ends = outcome_from defaults os none ends

-- The defaults do not matter once an option has set the mode.
last_decides :
    (os : List Opt) (y : Bool) (m m' : Bool × Bool)
    → mode_of m (last_daemon os (some y)) ≡ mode_of m' (last_daemon os (some y))
last_decides [] y m m' = refl
last_decides (opt_help ∷ os) y m m' = last_decides os y m m'
last_decides (opt_config ∷ os) y m m' = last_decides os y m m'
last_decides (opt_no_daemon ∷ os) y m m' = last_decides os false m m'
last_decides (opt_daemon ∷ os) y m m' = last_decides os true m m'
last_decides (opt_verbose ∷ os) y m m' = last_decides os y m m'
last_decides (opt_version ∷ os) y m m' = last_decides os y m m'
last_decides (opt_unknown ∷ os) y m m' = last_decides os y m m'
last_decides (opt_other ∷ os) y m m' = last_decides os y m m'

last_or_set :
    (os : List Opt) (x : Bool) (m : Bool × Bool)
    → mode_of (true, x) (last_daemon os none) ≡ mode_of m (last_daemon os (some x))
last_or_set [] x m = refl
last_or_set (opt_help ∷ os) x m = last_or_set os x m
last_or_set (opt_config ∷ os) x m = last_or_set os x m
last_or_set (opt_no_daemon ∷ os) x m = last_decides os false (true, x) m
last_or_set (opt_daemon ∷ os) x m = last_decides os true (true, x) m
last_or_set (opt_verbose ∷ os) x m = last_or_set os x m
last_or_set (opt_version ∷ os) x m = last_or_set os x m
last_or_set (opt_unknown ∷ os) x m = last_or_set os x m
last_or_set (opt_other ∷ os) x m = last_or_set os x m

outcome_set :
    (os : List Opt) (x : Bool) (m : Bool × Bool) (ends : Option Bool)
    → outcome (true, x) os ends ≡ outcome_from m os (some x) ends
outcome_set os x m (some success) = refl
outcome_set os x m none = last_or_set os x m

-- The loop ends the program at the first option that does so; without one the last option that says
-- so decides whether the server is a daemon, and without any the defaults stay.
pub parse_options_lem :
    (os : List Opt) (defaults : Bool × Bool)
    → parse_options os defaults ≡ outcome defaults os (first_ending os)
unfolding parse_options
parse_options_lem [] (server, daemonize) = refl
parse_options_lem (opt_help ∷ os) defaults = refl
parse_options_lem (opt_config ∷ os) defaults = parse_options_lem os defaults
parse_options_lem (opt_no_daemon ∷ os) defaults =
    parse_options_lem os (true, false) ∙ outcome_set os false defaults (first_ending os)
parse_options_lem (opt_daemon ∷ os) defaults =
    parse_options_lem os (true, true) ∙ outcome_set os true defaults (first_ending os)
parse_options_lem (opt_verbose ∷ os) defaults = parse_options_lem os defaults
parse_options_lem (opt_version ∷ os) defaults = parse_options_lem os defaults
parse_options_lem (opt_unknown ∷ os) defaults = refl
parse_options_lem (opt_other ∷ os) defaults = refl
