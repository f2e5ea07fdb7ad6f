-- ===== src/Process/Tests.antt =====
-- Processes at concrete inputs.
use smooth_demon.Prelude.{◌≡◌, refl, false, List, [], ◌∷◌, none, some, arith, All, replicate}
use smooth_demon.Prelude.Int.{pos}
use smooth_demon.Double.Fixed.{Fixed, fixed_double}
use smooth_demon.Text.{
  Text, codes, lines, after_last, text_eq, contains, starts_with, is_empty, is_space, is_digit,
}
use smooth_demon.Text.Decimal.{value_from, show}
use smooth_demon.Text.Number.{first_line, take_while, trim_end}
use smooth_demon.Process.{
  Proc, ProcEntry, ProcessMonitor, stat, out_of_range, read_stat, read_comm, read_cmdline, pid_of,
  starts_digit, is_target, find_in, find_target_process, locate, sample, sample_located, reset,
  not_running,
}
use smooth_demon.Process.Stat.{IsWord, join, read_stat-fields}
use smooth_demon.Process.Sampling.{IsOutcome, sample-IsOutcome}

-- A name with parentheses in it.
abbrev stat_text : Text
stat_text = codes "7 (a) (b) S 1 1 1 1 1 1 1 1 1 1 30 12 0 0"

abbrev words : List Text
words = replicate 10 (codes "1")

one-IsWord : IsWord (codes "1")
unfolding IsWord is_empty is_space
one-IsWord = (refl, (refl, tt), (refl, tt))

words-IsWord : All IsWord words
words-IsWord = let w = one-IsWord in (w, (w, (w, (w, (w, (w, (w, (w, (w, (w, tt))))))))))

read_stat-fields_example : read_stat (some stat_text) ≡ stat b'S' 42
unfolding lines first_line join show IsWord is_space is_empty
read_stat-fields_example =
    read_stat-fields stat_text (codes "7 (a) (b") b'S' words 30 12 (codes "0 0") refl refl
      words-IsWord refl (refl, (refl, (refl, tt))) (omega arith) (omega arith)

-- A line that ends behind the state makes `substr` throw.
throws : read_stat (some (codes "7 (a) S")) ≡ out_of_range
unfolding read_stat lines first_line after_last
throws = refl

abbrev target_entry : ProcEntry
target_entry = record {
  comm = some (codes "ryujinx\n");
  cmdline = none;
  stat_file = some stat_text;
  status = none;
  task = none;
}

abbrev proc : Proc
proc = record {
  names = some (codes "self" ∷ codes "5" ∷ codes "7" ∷ []);
  entry = λ p. target_entry;
}

finds : find_target_process (pos 5) (codes "ryujinx") proc ≡ some (pos 7)
unfolding find_target_process find_in is_target read_comm read_cmdline pid_of starts_digit trim_end
    first_line lines text_eq contains starts_with is_empty is_digit take_while value_from
finds = refl

abbrev monitor : ProcessMonitor
monitor = record {
  target_name = codes "ryujinx";
  cached_pid = pos 7;
  clk_tck = 100;
  num_cores = 4;
  prev_ticks = 40;
  prev_time = 0;
  first_sample = false;
}

-- The cached process has gone.
abbrev gone : Proc
gone = record { names = some []; entry = λ p. record target_entry { stat_file = none } }

loses : sample {F = Fixed} (pos 5) gone 10 monitor ≡ some (false, not_running, reset monitor)
unfolding sample locate sample_located reset read_stat
loses = refl

sample-IsOutcome_example : IsOutcome {F = Fixed} false not_running (reset monitor)
sample-IsOutcome_example =
    sample-IsOutcome (pos 5) gone 10 monitor (reset monitor) false not_running loses
