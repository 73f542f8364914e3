-- ===== src/Client.antt =====
-- volans.c and cmdhandler.c: the options of the program, the request that the client sends for a
-- command, and how the daemon takes the serial of a zone from it.
pub mod Options
pub mod Serial
mod Tests
use volans.Prelude.{ℕ, Bool, true, false, Option, none, some, List, [], ◌∷◌, ◌++◌, if◌then◌else◌}
use volans.Prelude.Int.{ℤ}
use volans.Text.{is_equal, strcmp, codes, decimal_ℤ, atoi}

-- What getopt_long returns: the options of the program, '?', and any other one.
pub data Opt : Type 0 where
  opt_help : Opt
  opt_config : Opt
  opt_no_daemon : Opt
  opt_daemon : Opt
  opt_verbose : Opt
  opt_version : Opt
  opt_unknown : Opt
  opt_other : Opt

-- How `main` goes on: it returns, or it runs with `optionServer` and `optionDaemonize`.
pub data Mode : Type 0 where
  exits : Bool → Mode
  runs : Bool → Bool → Mode

abbrev pub is : List ℕ → List ℕ → Bool
is a b = is_equal (strcmp a b)

-- The defaults for the name of the program.
unfoldable pub default_mode : List ℕ → Bool × Bool
default_mode argv0 =
    if is argv0 (codes "volans")
    then (false, false)
    else (if is argv0 (codes "volansd") then (true, true) else (false, false))

-- The loop over the options; the flag of `exits` is whether it is a success.
unfoldable pub parse_options : List Opt → Bool × Bool → Mode
parse_options [] (server, daemonize) = runs server daemonize
parse_options (opt_help ∷ os) mode = exits true
parse_options (opt_config ∷ os) mode = parse_options os mode
parse_options (opt_no_daemon ∷ os) mode = parse_options os (true, false)
parse_options (opt_daemon ∷ os) mode = parse_options os (true, true)
parse_options (opt_verbose ∷ os) mode = parse_options os mode
parse_options (opt_version ∷ os) mode = parse_options os mode
parse_options (opt_unknown ∷ os) mode = exits false
parse_options (opt_other ∷ os) mode = exits false

-- The URL that the client asks of http://localhost:8080, from the arguments behind the command; `none` is no URL, with a
-- message. A serial that is not an int is `none` too.
abbrev pub zone_url : List (List ℕ) → Option (List ℕ)
zone_url (apex ∷ []) = some (codes "/zone?apex=" ++ apex)
zone_url (apex ∷ persist ∷ []) =
    some (codes "/zone?apex=" ++ (apex ++ (codes "&persist=" ++ persist)))
zone_url (apex ∷ persist ∷ input ∷ []) = some (
    codes "/zone?apex=" ++ (apex ++ (codes "&persist=" ++ (persist ++ (codes "&input=" ++ input)))))
zone_url _ = none

abbrev pub serial_url : List ℕ → Option ℤ → Option (List ℕ)
serial_url path none = none
serial_url path (some serial) = some (path ++ decimal_ℤ serial)

abbrev pub cycle_url : List ℕ → Option ℤ → Option (List ℕ)
cycle_url output none = none
cycle_url output (some serial) =
    some (codes "/cycle?serial=" ++ (decimal_ℤ serial ++ (codes "&output=" ++ output)))

abbrev pub sign_url : List (List ℕ) → Option (List ℕ)
sign_url (serial ∷ []) = serial_url (codes "/sign?serial=") (atoi serial)
sign_url (serial ∷ output ∷ []) = cycle_url output (atoi serial)
sign_url _ = none

abbrev pub output_url : List ℕ → List (List ℕ) → Option (List ℕ)
output_url path (output ∷ []) = some (path ++ output)
output_url path _ = none

abbrev pub cycle_command : List (List ℕ) → Option (List ℕ)
cycle_command [] = some (codes "/cycle")
cycle_command (output ∷ outputs) = output_url (codes "/cycle?output=") (output ∷ outputs)

abbrev pub bare_url : List ℕ → List (List ℕ) → Option (List ℕ)
bare_url path [] = some path
bare_url path (_ ∷ _) = none

-- The path and query of the URL for a command; `exit` takes any arguments.
unfoldable pub command_url : List ℕ → List (List ℕ) → Option (List ℕ)
command_url command args =
    if is command (codes "exit")
    then some (codes "/exit")
    else (if is command (codes "zone")
        then zone_url args
        else (if is command (codes "sign")
            then sign_url args
            else (if is command (codes "cycle")
                then cycle_command args
                else (if is command (codes "output")
                    then output_url (codes "/output?output=") args
                    else (if is command (codes "persist")
                        then bare_url (codes "/persist") args
                        else none)))))

-- A call of `names_docycle`: the serial, if any, and the file, if any.
pub record Cycle : Type 0 where
  pub serial : Option ℤ
  pub filename : Option (List ℕ)

-- evhttp_parse_query and evhttp_find_header of the URI of a request.
module _ (find_header : List ℕ → List ℕ → Option (List ℕ)) where
  -- The serial that the daemon keeps; `none` is a text that is not an int.
  abbrev pub serial_after : Option (List ℕ) → ℤ → Option ℤ
  serial_after none serial = some serial
  serial_after (some text) serial = atoi text

  abbrev pub with_serial : Option (List ℕ) → Option ℤ → Option (ℤ × Cycle)
  with_serial filename none = none
  with_serial filename (some serial) =
      some (serial, record { serial = some serial; filename = filename })

  -- `handler_sign`, `handler_cycle` and `handler_output`: the serial that is kept, and the call.
  unfoldable pub handler_sign : List ℕ → ℤ → Option (ℤ × Cycle)
  handler_sign uri serial =
      with_serial none (serial_after (find_header uri (codes "newserial")) serial)

  unfoldable pub handler_cycle : List ℕ → ℤ → Option (ℤ × Cycle)
  handler_cycle uri serial =
      with_serial (find_header uri (codes "output"))
        (serial_after (find_header uri (codes "newserial")) serial)

  unfoldable pub handler_output : List ℕ → ℤ → Option (ℤ × Cycle)
  handler_output uri serial =
      some (serial, record { serial = none; filename = find_header uri (codes "output") })
