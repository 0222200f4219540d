-- ===== src/Tests/Machine/Wait.antt =====
-- The polling methods on a guest with a clock: a call takes one second, and the guest is up, with its
-- files and ports, after three seconds.
use rules_vmtest.Base.{
  ℕ, ◌+◌, ◌*◌, ◌≡◌, refl, Bool, true, false, [], ◌∷◌, List, none, some, pos, text, ltb, same,
  if◌then◌else◌, ok, err, arith,
}
use rules_vmtest.Strings.{contains}
use rules_vmtest.Strconv.{itoa}
use rules_vmtest.Machine.Guest.{Guest, IsTimely}
use rules_vmtest.Machine.Retry.{
  second, with_retry_timeout, with_retry_interval, RetryOption, apply_retry_opts,
}
use rules_vmtest.Machine.Poll.{Attempt, done, again, poll}
use rules_vmtest.Machine.Poll.Runs.{Run, poll_total}
use rules_vmtest.Machine.Exec.{execute, succeed, fail, timed_out}
use rules_vmtest.Machine.Exec.Outcomes.{Opposite, succeed-Opposite}
use rules_vmtest.Machine.Wait.{
  wait_until_succeeds, wait_until_output, wait_for_unit, wait_for_open_port, wait_for_closed_port,
  wait_for_file,
}
use rules_vmtest.Machine.Wait.Total.{IsEnough}
use rules_vmtest.Machine.Wait.Sound.{
  TimedEnd, RanWell, wait_until_succeeds_sound, wait_until_output_sound,
}
use rules_vmtest.Machine.Wait.States.{
  UnitEnd, Saw, wait_for_unit_sound, wait_for_port_sound, wait_for_file_sound,
}
use rules_vmtest.Machine.Journal.{IsFirstMatch, wait_for_log, wait_for_log_sound}

abbrev pub up : ℕ → Bool
up w = ltb (3 * second) w

abbrev pub later : ℕ → ℕ
later w = w + second

abbrev pub booting : Guest
booting = record {
  World = ℕ;
  Error = Unit {0};
  now = λ w. w;
  sleep = λ d w. w + d;
  exec = λ cmd limit w. (
    ok (record { stdout = text "up"; stderr = []; exit_code = if up w then pos 0 else pos 1 }),
    later w,
  );
  background = λ argv w. (none, later w);
  unit_status = λ unit w. (
    ok (record {
      active_state = if up w then text "active" else text "activating";
      sub_state = text "running";
    }),
    later w,
  );
  check_port = λ port w. (ok (up w), later w);
  listen = λ port w. (none, later w);
  stat = λ path w. (ok (record { exists = up w; size = pos 7 }), later w);
  read_file = λ path w. (err tt, later w);
  write_file = λ path content w. (none, later w);
  file_hash = λ path algo w. (err tt, later w);
  http_get = λ url w. (
    ok (record { status_code = if up w then pos 200 else pos 503; body = text "hello" }),
    later w,
  );
  journal_lines =
      λ unit n since w. (ok (if up w then text "start" ∷ text "ready" ∷ [] else []), later w);
  find_processes = λ pattern w. (ok [], later w);
  network_info = λ iface w. (ok (record { addrs = []; routes = []; links = [] }), later w);
  regexp = λ pattern. some (λ line. same line pattern);
}

booting-IsTimely : IsTimely booting
booting-IsTimely = record {
  sleep_long = λ d w. omega arith;
  exec_later = λ cmd d w. omega arith;
  unit_status_later = λ unit w. omega arith;
  check_port_later = λ port w. omega arith;
  stat_later = λ path w. omega arith;
  http_get_later = λ url w. omega arith;
  journal_lines_later = λ unit n since w. omega arith;
}

-- Pauses of one second, for ten seconds.
abbrev patient : List RetryOption
patient = with_retry_timeout (10 * second) ∷ with_retry_interval second ∷ []

abbrev ten : ℕ
ten = 10 * second

patient-IsEnough : IsEnough 10 (apply_retry_opts patient)
unfolding apply_retry_opts
patient-IsEnough = omega arith

wait_until_succeeds_sound_example :
    TimedEnd booting
      (0 + ten)
      (RanWell booting (0 + ten) (text "true") (λ _. true))
      (wait_until_succeeds booting 11 (text "true") patient 0)
unfolding apply_retry_opts
wait_until_succeeds_sound_example =
    wait_until_succeeds_sound booting booting-IsTimely 10 (text "true") patient 0 patient-IsEnough

wait_until_output_sound_example :
    TimedEnd booting
      (0 + ten)
      (RanWell booting (0 + ten) (text "uname") (λ out. contains out (text "up")))
      (wait_until_output booting 11 (text "uname") (λ out. contains out (text "up")) patient 0)
unfolding apply_retry_opts
wait_until_output_sound_example =
    wait_until_output_sound booting booting-IsTimely 10 (text "uname")
      (λ out. contains out (text "up")) patient 0 patient-IsEnough

wait_for_unit_sound_example :
    UnitEnd booting (0 + ten) (text "nginx") (wait_for_unit booting 11 (text "nginx") patient 0)
unfolding apply_retry_opts
wait_for_unit_sound_example =
    wait_for_unit_sound booting booting-IsTimely 10 (text "nginx") patient 0 patient-IsEnough

wait_for_port_sound_example :
    TimedEnd booting
      (0 + ten)
      (λ _. Saw booting (0 + ten) (booting.check_port (pos 80)) (λ found. found ≡ true))
      (wait_for_open_port booting 11 (pos 80) patient 0)
    × TimedEnd booting
        (0 + ten)
        (λ _. Saw booting (0 + ten) (booting.check_port (pos 80)) (λ found. found ≡ false))
        (wait_for_closed_port booting 11 (pos 80) patient 0)
unfolding apply_retry_opts
wait_for_port_sound_example =
    wait_for_port_sound booting booting-IsTimely 10 (pos 80) patient 0 patient-IsEnough

wait_for_file_sound_example :
    TimedEnd booting
      (0 + ten)
      (λ _. Saw booting (0 + ten) (booting.stat (text "/run/app.pid")) (λ s. s.exists ≡ true))
      (wait_for_file booting 11 (text "/run/app.pid") patient 0)
unfolding apply_retry_opts
wait_for_file_sound_example =
    wait_for_file_sound booting booting-IsTimely 10 (text "/run/app.pid") patient 0 patient-IsEnough

wait_for_log_sound_example :
    TimedEnd booting
      (0 + ten)
      (λ line.
        Saw booting
          (0 + ten)
          (booting.journal_lines (text "app") (pos 0) [])
          (IsFirstMatch (λ l. same l (text "ready")) line))
      (wait_for_log booting 11 (text "app") (text "ready") patient 0)
unfolding apply_retry_opts
wait_for_log_sound_example =
    wait_for_log_sound booting booting-IsTimely 10 (text "app") (text "ready")
      (λ l. same l (text "ready")) patient 0 refl patient-IsEnough

-- A loop over the clock alone, which is done in the fourth second.
abbrev tick : ℕ → Attempt (Unit {0}) (Unit {0}) ℕ × ℕ
tick w = (if up w then done w else again tt, later w)

poll_total_example :
    Run booting ten second tick tt 0
      (poll booting ten second tick 11 tt 0).0
      (poll booting ten second tick 11 tt 0).1
poll_total_example =
    poll_total booting ten second tick (omega arith) (λ d w. omega arith) (λ w. omega arith) 10 tt 0
      (omega arith)

returns_in_time :
    wait_until_succeeds booting 11 (text "true") patient 0 ≡ (some (ok (text "up")), 5 * second)
unfolding wait_until_succeeds execute poll apply_retry_opts text
returns_in_time = refl

stops_in_time :
    wait_for_closed_port booting 11 (pos 80) patient (4 * second)
    ≡ (some (err (timed_out (text "80") ten)), 14 * second)
unfolding wait_for_closed_port poll apply_retry_opts text itoa
stops_in_time = refl

succeed-Opposite_example :
    Opposite booting
      (text "true")
      (execute booting (text "true") 0).0
      (succeed booting (text "true") 0).0
      (fail booting (text "true") 0).0
    × ((succeed booting (text "true") 0).1 ≡ (execute booting (text "true") 0).1)
    × ((fail booting (text "true") 0).1 ≡ (execute booting (text "true") 0).1)
succeed-Opposite_example = succeed-Opposite booting (text "true") 0
