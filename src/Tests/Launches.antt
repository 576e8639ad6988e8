-- ===== src/Tests/Launches.antt =====
-- An agent of Docker that is run, stopped and removed, and one whose image cannot be pulled.
use agentfile.Common.{◌≡◌, refl, Bool, true, false, []}
use agentfile.Common.Lists.{length}
use agentfile.Common.Results.{Result, ok}
use agentfile.Common.Texts.{codes, text_eq}
use agentfile.Docker.Launch
use agentfile.Docker.Launch.Supplied.{IsSupplied}
use agentfile.Docker.Launch.Runs.{History-IsSupplied}
use agentfile.Tests.Containers.{deps, rt}

-- Only "debian" is there; the rest has to be pulled.
abbrev has : Launch.Call → Bool
has (Launch.inspect_image ref) = text_eq ref (codes "debian")
has c = true

abbrev daemon : Launch.Daemon
daemon = record {
  succeeds = λ calls c. has c;
  not_found = λ calls c. true;
  created_id = λ calls. codes "c0";
  exit_code = λ calls. 0;
  cancelled = λ calls. false;
}

abbrev ran : Launch.Launch × Result Launch.RunError (Unit {0})
ran = Launch.run_agent daemon (λ c. c) (λ m. m) deps [] [] (ok rt) Launch.new_launch

History-IsSupplied_example :
    IsSupplied daemon (Launch.remove_agent daemon (Launch.stop_agent daemon ran.0)).0.calls
History-IsSupplied_example =
    History-IsSupplied daemon (λ c. c) (λ m. m) deps (λ P m h. h)
      (Launch.removes (Launch.stops (Launch.runs [] [] (ok rt) Launch.fresh)))

-- Ten calls: the status twice, one image that is there and one that is pulled, and the container.
runs : (length ran.0.calls ≡ 10) × (ran.1 ≡ ok tt)
unfolding Launch.run_agent Launch.new_launch
runs = (refl, refl)
