-- ===== src/Loader/Arguments.antt =====
-- The arguments that a program finds are those that exec was given (setTaskRSP and setRSPandExec in
-- sys/process.c, _start in crt/crt1.c).
use late_os.Common.{
  ℕ, suc, ◌+◌, ◌-◌, ◌*◌, ◌^◌, ◌≤◌, ◌<◌, ◌≡◌, some, List, arith, length, ltb, true, map,
}
use late_os.Memory.{Memory, page_size, ◌>>=◌}
use late_os.Memory.Walk.{Roles}
use late_os.Loader.Bytes.{Mapping}
use late_os.Loader.Stack.{
  push_word, push_strings, push_words, string_at, start, start_argv, start_env, set_rsp_and_exec,
  times,
}
use late_os.Loader.Found.{
  AreArguments, Strings-Positive, Strings-length, string_at-Strings, start_argv-Words,
  start_env-Words, start-parts, number_at-int,
}
use late_os.Loader.Pushes.{
  Same, Same-then, HasWord, HasWord-Same, Strings, Words, Strings-Same, Words-Same, Pushed,
  push_word-Pushed,
}
use late_os.Loader.Lists.{room, push_strings-Pushed, push_words-Pushed}

-- The words between the strings and the stack pointer that the program is entered with.
abbrev pub stack_words : (args envs : List (List ℕ)) → ℕ
stack_words args envs = room envs + room args + (length envs + length args + 3)

-- A program that is entered with `args` and `envs`.
pub record Entered (role : Roles) (free : List ℕ) (top first count : ℕ) (page : ℕ → ℕ) (m : Memory)
    (rsp : ℕ) (args envs : List (List ℕ)) : Type 0 where
  pub word' : ℕ → ℕ
  pub entry : ℕ
  pub argv : List ℕ
  pub env : List ℕ
  pub runs :
      set_rsp_and_exec (top * page_size) rsp args envs m ≡ some (entry, record m { word = word' })
  pub found : start (suc (length envs)) word' top (entry - 8) ≡ some (length args, argv, env)
  pub arguments : map (string_at 100 word' top) argv ≡ map some args
  pub environment : map (string_at 100 word' top) env ≡ map some envs
  pub region : Mapping role free top first count page (record m { word = word' })

module _ {role : Roles} {free : List ℕ} {top first count : ℕ} {page : ℕ → ℕ} (high : ℕ)
    (inside : high ≤ (first + count) * page_size) (user : high < 2 ^ 63) where
  module _ {m : Memory} (r : Mapping role free top first count page m) (rsp : ℕ)
      (args envs : List (List ℕ)) (low : first * page_size + 8 * suc (stack_words args envs) ≤ rsp)
      (top_end : rsp ≤ high) where
    module _ (ps qs : List ℕ) (lp : length ps ≡ length args) (lq : length qs ≡ length envs) where
      abbrev a₁ : ℕ
      a₁ = rsp - 8 * room envs

      abbrev a₂ : ℕ
      a₂ = a₁ - 8 * room args

      abbrev a₃ : ℕ
      a₃ = a₂ - 8

      abbrev a₄ : ℕ
      a₄ = a₃ - 8 * length qs

      abbrev a₅ : ℕ
      a₅ = a₄ - 8

      abbrev a₆ : ℕ
      a₆ = a₅ - 8 * length ps

      abbrev a₇ : ℕ
      a₇ = a₆ - 8

      module _ (w₁ w₂ w₃ w₄ w₅ w₆ w₇ : ℕ → ℕ)
          (p₁ : Pushed role free top first count page m rsp high
            (push_strings (top * page_size) rsp envs)
            (a₁, qs)
            w₁)
          (p₂ : Pushed role free top first count page
            (record m { word = w₁ })
            a₁
            high
            (push_strings (top * page_size) a₁ args)
            (a₂, ps)
            w₂)
          (p₃ : Pushed role free top first count page
            (record m { word = w₂ })
            a₂
            high
            (push_word (top * page_size) a₂ 0)
            a₃
            w₃)
          (p₄ : Pushed role free top first count page
            (record m { word = w₃ })
            a₃
            high
            (push_words (top * page_size) a₃ qs)
            a₄
            w₄)
          (p₅ : Pushed role free top first count page
            (record m { word = w₄ })
            a₄
            high
            (push_word (top * page_size) a₄ 0)
            a₅
            w₅)
          (p₆ : Pushed role free top first count page
            (record m { word = w₅ })
            a₅
            high
            (push_words (top * page_size) a₅ ps)
            a₆
            w₆)
          (p₇ : Pushed role free top first count page
            (record m { word = w₆ })
            a₆
            high
            (push_word (top * page_size) a₆ (length args))
            a₇
            w₇) where
        enter_runs :
            set_rsp_and_exec (top * page_size) rsp args envs m ≡ some (a₇, record m { word = w₇ })
        unfolding set_rsp_and_exec
        enter_runs =
            rw (
              set_rsp_and_exec, ◌>>=◌, p₁.runs, p₂.runs, p₃.runs, p₄.runs, p₅.runs, p₆.runs,
              p₇.runs,
            )

        s₆ : Same a₆ high top w₆ w₇
        s₆ = p₇.same

        s₅ : Same a₅ high top w₅ w₇
        s₅ = Same-then p₆.same s₆ (omega arith)

        s₄ : Same a₄ high top w₄ w₇
        s₄ = Same-then p₅.same s₅ (omega arith)

        s₃ : Same a₃ high top w₃ w₇
        s₃ = Same-then p₄.same s₄ (omega arith)

        s₂ : Same a₂ high top w₂ w₇
        s₂ = Same-then p₃.same s₃ (omega arith)

        s₁ : Same a₁ high top w₁ w₇
        s₁ = Same-then p₂.same s₂ (omega arith)

        module _ (envs_there : Strings a₁ high top w₁ qs envs)
            (args_there : Strings a₂ high top w₂ ps args) (end : HasWord a₃ high top w₃ a₃ 0)
            (env_words : Words a₄ high top w₄ a₄ qs) (null : HasWord a₅ high top w₅ a₅ 0)
            (arg_words : Words a₆ high top w₆ a₆ ps)
            (argc : HasWord a₇ high top w₇ a₇ (length args)) (few : length args < 2 ^ 31)
            (all_args : AreArguments args) (all_envs : AreArguments envs) where
          env_found : start_env (suc (length envs)) w₇ top a₄ ≡ some qs
          env_found =
              let e : a₄ + 8 * length qs ≡ a₃ = omega arith in
              start_env-Words (suc (length envs)) a₄ high top w₇ a₄ qs
                (Words-Same a₄ qs env_words s₄ (omega arith))
                (rw e (HasWord-Same end s₃ (omega arith)))
                (Strings-Positive a₁ high top w₁ qs envs envs_there (omega arith) user)
                (omega arith)

          argv_found : start_argv (length args) w₇ top a₆ ≡ some ps
          argv_found = rw (← lp) (
              start_argv-Words a₆ high top w₇ a₆ ps (Words-Same a₆ ps arg_words s₆ (omega arith))
                (Strings-Positive a₂ high top w₂ ps args args_there (omega arith) user))

          start_found : start (suc (length envs)) w₇ top (a₇ - 8) ≡ some (length args, ps, qs)
          start_found =
              let e : a₇ - 8 + 8 ≡ a₇ = omega arith in
              let count : times (length args) ≡ length args =
                (let l : ltb (length args) (2 ^ 31) ≡ true = ground arith in rw l) in
              let e' : a₇ - 8 + 16 ≡ a₆ = omega arith in
              let e'' : a₇ - 8 + 16 + 8 * times (length args) + 8 ≡ a₄ = rw count (omega arith) in
              start-parts (suc (length envs)) w₇ top (a₇ - 8) (length args) ps qs
                (rw e (number_at-int a₇ high top w₇ a₇ (length args) argc (omega arith)))
                (rw (e', count) argv_found) (rw e'' env_found)

          entered : Entered role free top first count page m rsp args envs
          entered = record {
            word' = w₇;
            entry = a₇;
            argv = ps;
            env = qs;
            runs = enter_runs;
            found = start_found;
            arguments =
                string_at-Strings a₂ high top w₇ ps args
                  (Strings-Same ps args args_there s₂ (omega arith)) all_args;
            environment =
                string_at-Strings a₁ high top w₇ qs envs
                  (Strings-Same qs envs envs_there s₁ (omega arith)) all_envs;
            region = p₇.region;
          }

    -- setRSPandExec, on a mapped stack with room for the strings, the words and one word more, runs to
    -- its end, and `_start` then finds what it was given: the number of the arguments, the addresses
    -- of the arguments, which read as these, and those of the environment, which read as that.
    pub set_rsp_and_exec-Entered :
        length args < 2 ^ 31
        → AreArguments args
        → AreArguments envs
        → Entered role free top first count page m rsp args envs
    set_rsp_and_exec-Entered few all_args all_envs =
        let (qs, w₁, p₁, envs_there) =
          push_strings-Pushed high inside user r rsp envs (omega arith) top_end in
        let (ps, w₂, p₂, args_there) =
          push_strings-Pushed high inside user p₁.region (rsp - 8 * room envs) args (omega arith)
            (omega arith) in
        let lq = Strings-length _ high top w₁ qs envs envs_there in
        let lp = Strings-length _ high top w₂ ps args args_there in
        let (w₃, p₃, end) =
          push_word-Pushed high inside user p₂.region (a₂ ps qs lp lq) 0 (omega arith)
            (omega arith) in
        let (w₄, p₄, env_words) =
          push_words-Pushed high inside user p₃.region (a₃ ps qs lp lq) qs (omega arith)
            (omega arith) in
        let (w₅, p₅, null) =
          push_word-Pushed high inside user p₄.region (a₄ ps qs lp lq) 0 (omega arith)
            (omega arith) in
        let (w₆, p₆, arg_words) =
          push_words-Pushed high inside user p₅.region (a₅ ps qs lp lq) ps (omega arith)
            (omega arith) in
        let (w₇, p₇, argc) =
          push_word-Pushed high inside user p₆.region (a₆ ps qs lp lq) (length args) (omega arith)
            (omega arith) in
        entered ps qs lp lq w₁ w₂ w₃ w₄ w₅ w₆ w₇ p₁ p₂ p₃ p₄ p₅ p₆ p₇ envs_there args_there end
          env_words null arg_words argc few all_args all_envs
