-- ===== src/Starvation/Tests.antt =====
-- A Radarr whose refresh waits behind two queued searches.
use rawrz.Prelude.{
  ℕ, ◌+◌, ◌≡◌, refl, true, false, none, some, List, [], ◌∷◌, ◌==◌, nat_eq, string_eq,
}
use rawrz.Prelude.Result
use rawrz.Exec.Works.{Gives}
use rawrz.Exec.Ends.{Returned}
use rawrz.Starvation.{
  Command, Host, World, queued, started, assess, exceeds, clear_search_backlog, check_all,
  refresh_command,
}
use rawrz.Starvation.Threshold.{some_late, assess-exceeds}
use rawrz.Starvation.Removals.{Removes, clear_search_backlog-Removes}
use rawrz.Starvation.Remedied.{Fits, check_all-Fits}

abbrev commands_now : List Command
commands_now =
    record { id = 1; name = refresh_command; status = queued; queued_at = some 1000 }
    ∷ record { id = 2; name = "MoviesSearch"; status = started; queued_at = some 500 }
    ∷ record { id = 3; name = "MovieSearch"; status = queued; queued_at = none }
    ∷ record { id = 4; name = "SeasonSearch"; status = queued; queued_at = some 700 }
    ∷ []

-- The state of the network is the number of removals; the second one is refused.
abbrev busy_host : Host
busy_host = record {
  Net = ℕ;
  commands = λ app n. (Result.ok commands_now, n);
  newest = λ app e n. (Result.ok none, n);
  cancel = λ app id n. (n == 0, n + 1);
}

abbrev quiet_world : World busy_host
quiet_world = record { net = 0; removals = [] }

assess-exceeds_example :
    exceeds (assess 302000 commands_now).starved_seconds ≡ some_late 302000 commands_now
assess-exceeds_example = assess-exceeds 302000 commands_now

starved_above_the_bound : some_late 301501 commands_now ≡ true
unfolding string_eq
starved_above_the_bound = refl

starved_at_the_bound : some_late 301500 commands_now ≡ false
unfolding string_eq
starved_at_the_bound = refl

clear_search_backlog-Removes_example :
    Gives
      (Removes busy_host "radarr" commands_now quiet_world)
      (clear_search_backlog busy_host "radarr" quiet_world)
clear_search_backlog-Removes_example =
    clear_search_backlog-Removes busy_host "radarr" quiet_world commands_now 0 refl

check_all-Fits_example :
    Returned
      (λ r. Fits busy_host true r.apps r.remediated quiet_world)
      (check_all busy_host true 302000 ("radarr" ∷ "sonarr" ∷ []) quiet_world)
check_all-Fits_example = check_all-Fits busy_host true 302000 ("radarr" ∷ "sonarr" ∷ []) quiet_world
