-- ===== src/Shell/Commands.antt =====
-- The commands of the shell (bin/sbush/sbush.c). What the shell calls is the record `System`, over a
-- state `W`.
use late_os.Common.{
  ℕ, ◌||◌, ◌==◌, Bool, Option, none, some, List, [], ◌∷◌, ◌++◌, codes, if◌then◌else◌,
}
use late_os.Files.{same}
use late_os.Shell.{Strings, Split, is_empty, strtok, cleared, make_command_list}

-- What the shell calls. `start` forks, and runs the command in the child.
pub record System (W : Type 0) : Type 0 where
  pub chdir : List ℕ → W → Bool × W
  pub get_current_directory : W → List ℕ
  pub clear_screen : W → W
  pub start : (command : List ℕ) → Strings → W → ℕ × W
  pub waitpid : ℕ → W → W
  pub puts : List ℕ → W → W

pub record Shell (W : Type 0) : Type 0 where
  pub prompt : List ℕ
  pub is_background : Bool
  pub world : W

-- `\n`
abbrev pub newline : ℕ
newline = 10

module _ {W : Type 0} (system : System W) where
  unfoldable pub set_prompt : (sbush : List ℕ) → Shell W → Shell W
  set_prompt sbush shell =
      let pwd = system.get_current_directory shell.world in
      record shell { prompt = sbush ++ b':' ∷ pwd ++ b'>' ∷ [] }

  abbrev pub print : List ℕ → Shell W → Shell W
  print text shell = record shell { world = system.puts text shell.world }

  -- `changeDirectory`
  unfoldable pub change_directory : Strings → Shell W → Shell W
  unfolding set_prompt
  change_directory args shell =
      let done : Shell W = elim (args 1) [
        | none ↦ print (codes "Usage : cd <path>\n") shell
        | some path ↦
            let (changed, world) = system.chdir path shell.world in
            let shell' = record shell { world = world } in
            if changed then shell' else print (codes "Invalid path\n") shell'
      ] in
      set_prompt done.prompt done

  -- `changeSbush`: `export PS1=...`. The string behind PS1 is at NULL where no '=' or nothing follows it.
  unfoldable pub change_sbush : Strings → Shell W → Option (Shell W)
  unfolding set_prompt strtok
  change_sbush args shell = elim (args 1) [
    | none ↦ none
    | some arg ↦
        let parts =
          strtok b'=' arg (record { strs = cleared; is_background = shell.is_background }) in
        let shell' = record shell { is_background = parts.is_background } in
        elim (parts.strs 0) [
          | none ↦ none
          | some name ↦
              let named : Option (Shell W) = elim (parts.strs 1) [
                | none ↦ none
                | some value ↦ some (set_prompt value shell')
              ] in
              if same (codes "PS1") name then named else some shell'
        ]
  ]

  -- `execCommand`, in the parent. `pid_t` has no sign, so the branch for a failed fork is never taken.
  unfoldable pub exec_command : (command : List ℕ) → Strings → Shell W → Shell W
  exec_command command args shell =
      let (pid, world) = system.start command args shell.world in
      let shell' = record shell { world = world } in
      if shell.is_background then shell' else record shell' { world = system.waitpid pid world }

  -- `getPWD`
  unfoldable pub get_pwd : Shell W → Shell W
  get_pwd shell = print (newline ∷ []) (print (system.get_current_directory shell.world) shell)

  -- The choice of a command in `parseInput`.
  unfoldable pub run_command : Split → Shell W → Option (Shell W)
  run_command parts shell =
      let args = parts.strs in
      let shell' = record shell { is_background = parts.is_background } in
      elim (args 0) [
        | none ↦ none
        | some command ↦
            if same command (codes "cd")
            then some (change_directory args shell')
            else if same command (codes "export")
            then change_sbush args shell'
            else if same command (codes "clear")
            then some (record shell' { world = system.clear_screen shell'.world })
            else if same command (codes "pwd")
            then some (get_pwd shell')
            else some (exec_command command args shell')
      ]

  -- `parseInput`. Of the first call of `strtokBeta`, for the '|', only `isBackground` stays.
  unfoldable pub parse_input : (input : List ℕ) → Shell W → Option (Shell W)
  parse_input input shell =
      let start : Split = record { strs = cleared; is_background = shell.is_background } in
      let piped = strtok b'|' input start in
      run_command (strtok b' ' input (record piped { strs = cleared })) shell

  -- The loop of `main` over the lines of a file: each is copied to `in` and parsed.
  unfoldable pub run_lines : List (List ℕ) → Shell W → Option (Shell W)
  run_lines [] shell = some shell
  run_lines (line ∷ lines) shell = elim (parse_input line shell) [
    | none ↦ none
    | some shell' ↦ run_lines lines shell'
  ]

  -- The loop of `main` over the lines that are typed, up to `exit` or `quit`.
  unfoldable pub run_input : List (List ℕ) → Shell W → Option (Shell W)
  run_input [] shell = some shell
  run_input (line ∷ lines) shell =
      let shell' = print shell.prompt shell in
      let skipped = run_input lines shell' in
      let next : Option (Shell W) = elim (parse_input line shell') [
        | none ↦ none
        | some after ↦ run_input lines after
      ] in
      if is_empty line
      then skipped
      else if same line (codes "exit") || same line (codes "quit")
      then some shell'
      else next

  -- `main`: `text` is the string that stands in `inpString` once the file is read, `none` where the file
  -- does not open, and `typed` the lines that are typed.
  unfoldable pub sbush_main :
      (argc : ℕ) → (text : Option (List ℕ)) → (typed : List (List ℕ)) → Shell W → Option (Shell W)
  unfolding set_prompt make_command_list run_lines run_input
  sbush_main argc text typed shell =
      let start = set_prompt (codes "sbush") shell in
      if argc == 1
      then run_input typed (record start { world = system.clear_screen start.world })
      else elim text [
        | none ↦ some (print (codes "File not found, Exiting!") start)
        | some inp_string ↦ run_lines (make_command_list inp_string [] []).0 start
      ]
