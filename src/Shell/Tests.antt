-- ===== src/Shell/Tests.antt =====
-- A shell at the root of the archive of the tests of files.
use late_os.Common.{◌≡◌, refl, arith, Bool, some, [], ◌∷◌, codes, update}
use late_os.Process.{Kernel}
use late_os.Files.{check_file, find_header, chars}
use late_os.Files.Paths.{set_dir}
use late_os.Files.Moves.{go}
use late_os.Files.Tests.{archive, at_root}
use late_os.Shell.{
  Split, cleared, strtok, strtok_loop, end_string, make_null_execvp, make_command_list,
  get_input_arg_counts,
}
use late_os.Shell.Commands.{System, Shell, parse_input, run_lines, set_prompt, sbush_main}
use late_os.Shell.Tokens.{Filled, strtok-Filled}
use late_os.Shell.Script.{script, sbush_main-script}
use late_os.Shell.Prompt.{on_kernel, parse_input-cd}

abbrev system : System Kernel
system = record {
  chdir = λ path k. (Bool.false, k);
  get_current_directory = λ k. [];
  clear_screen = λ k. k;
  start = λ command args k. (3, k);
  waitpid = λ pid k. k;
  puts = λ text k. k;
}

abbrev shell : Shell Kernel
shell = record { prompt = codes "sbush:/>"; is_background = Bool.false; world = at_root }

abbrev before : Split
before = record { strs = cleared; is_background = Bool.false }

strtok-Filled_example :
    Filled 0 (codes "ls" ∷ codes "&" ∷ []) cleared (strtok b' ' (codes "ls &") before)
strtok-Filled_example = (strtok-Filled (codes "ls") (codes "&" ∷ []) before (ground arith)).0

parse_input-cd_example :
    parse_input (on_kernel archive system) (codes "cd d") shell
    ≡ some (record {
      prompt = codes "sbush:/>:/d>";
      is_background = Bool.false;
      world = set_dir (codes "/d/") at_root;
    })
unfolding go find_header check_file chars
parse_input-cd_example =
    parse_input-cd archive system shell (codes "d") [] (some (codes "d") ∷ []) (codes "d") [] refl
      tt (((refl, tt), tt), tt) refl (ground arith) refl refl refl

-- A space behind the '&' starts one more word, an empty one, so the task is not one in the background.
space_behind : (strtok b' ' (codes "ls & ") before).is_background ≡ Bool.false
unfolding strtok strtok_loop end_string make_null_execvp
space_behind = refl

-- The last line of a file, without an end of line, is not counted.
two_lines : (make_command_list (codes "ls\npwd\nps") [] []).0 ≡ codes "ls" ∷ codes "pwd" ∷ []
unfolding make_command_list
two_lines = refl

two_arguments : get_input_arg_counts 9 0 (strtok b' ' (codes "ls /bin") before).strs ≡ some 2
unfolding get_input_arg_counts strtok strtok_loop end_string make_null_execvp update
two_arguments = refl

-- A script of two commands, with an unfinished third.
two_commands :
    sbush_main system 2 (some (script (codes "ls" ∷ codes "pwd" ∷ []) (codes "ps"))) [] shell
    ≡ run_lines system (codes "ls" ∷ codes "pwd" ∷ []) (set_prompt system (codes "sbush") shell)
two_commands =
    sbush_main-script system 2 (codes "ls" ∷ codes "pwd" ∷ []) (codes "ps") [] shell (ground arith)
      (ground arith) (ground arith)
