-- ===== src/Cli/Loaded.antt =====
-- `cmd_watch` of src/solfleet/cli.py on a fleet that `load_fleet` of src/solfleet/config.py returned.
use solfleet.Prelude.{
  ℕ, zero, suc, Bool, true, false, ◌≡◌, refl, List, [], ◌∷◌, String, Option, none, some, Result, ok,
  err, ap, length,
}
use solfleet.Config.{DnsConfig, Fleet}
use solfleet.Config.Validate.{IsAccepted}
use solfleet.Config.Load.{Files, load_fleet, load_fleet-IsAccepted}
use solfleet.Probe.{ClusterStatus}
use solfleet.Dns.{DnsDriver, DnsSession}
use solfleet.Dns.Make.{Driver, make_driver}
use solfleet.Watch.Round.{WatchReport, watch_once, watch_loop}
use solfleet.Watch.Round.Totality.{watch_once_total}
use solfleet.Cli.Operate.{ended}
use solfleet.Cli.Fleet.{
  Watching, finished, running, cmd_watch, watch_with, with_driver, watch_rounds, watched_once,
  watched_on,
}

-- Behind a driver that was made: one report and exit code 0, or a loop that made all its rounds.
abbrev pub Watches : Bool → ℕ → Result Driver → Result Watching → Type 0
Watches once rounds (err e) result = result ≡ err e
Watches true rounds (ok driver) result =
    (report : WatchReport) × (result ≡ ok (finished (ended (report ∷ []) 0)))
Watches false rounds (ok driver) result =
    (reports : List WatchReport) × (length reports ≡ rounds) × (result ≡ ok (running reports))

-- What a watch comes to by the DNS configuration.
abbrev pub EndsAs : Option String → Bool → ℕ → Option DnsConfig → Result Watching → Type 0
EndsAs token once rounds none result = result ≡ ok (finished (ended [] 2))
EndsAs token once rounds (some dns) result = Watches once rounds (make_driver dns none token) result

module _ (D : DnsDriver) (fleet : Fleet) (accepted : IsAccepted fleet) (dry : Bool) where
  watch_loop_total :
      (prober : ℕ → List ClusterStatus) (n : ℕ) (s : DnsSession D.State)
      → (reports : List WatchReport) × (length reports ≡ n)
        × ((watch_loop D fleet prober dry n s).0 ≡ ok reports)
  unfolding watch_loop
  watch_loop_total prober zero s = ([], refl, refl)
  watch_loop_total prober (suc n) s =
      let (report, e) = watch_once_total D fleet (prober 0) dry s accepted in
      let (reports, count, er) =
        watch_loop_total (λ i. prober (suc i)) n (watch_once D fleet (prober 0) dry s).1 in
      (report ∷ reports, ap suc count, rw (e, er) refl)

  watched_once-ok :
      (outcome : Result WatchReport × DnsSession D.State) (report : WatchReport)
      → outcome.0 ≡ ok report
      → (watched_once D fleet outcome).0 ≡ ok (finished (ended (report ∷ []) 0))
  watched_once-ok (ok made, s) report h = cc
  watched_once-ok (err e, s) report h = cc

  watched_on-ok :
      (outcome : Result (List WatchReport) × DnsSession D.State) (reports : List WatchReport)
      → outcome.0 ≡ ok reports
      → (watched_on D fleet outcome).0 ≡ ok (running reports)
  watched_on-ok (ok made, s) reports h = cc
  watched_on-ok (err e, s) reports h = cc

  watch_rounds-Watches :
      (once : Bool) (prober : ℕ → List ClusterStatus) (rounds : ℕ) (driver : Driver)
      (s : DnsSession D.State)
      → Watches once rounds (ok driver) (watch_rounds D fleet once prober dry rounds s).0
  unfolding watch_rounds
  watch_rounds-Watches true prober rounds driver s =
      let (report, e) = watch_once_total D fleet (prober 0) dry s accepted in
      (report, watched_once-ok (watch_once D fleet (prober 0) dry s) report e)
  watch_rounds-Watches false prober rounds driver s =
      let (reports, count, e) = watch_loop_total prober rounds s in
      (reports, count, watched_on-ok (watch_loop D fleet prober dry rounds s) reports e)

  with_driver-Watches :
      (made : Result Driver) (once : Bool) (prober : ℕ → List ClusterStatus) (rounds : ℕ)
      (s : DnsSession D.State)
      → Watches once rounds made (with_driver D fleet made once prober dry rounds s).0
  with_driver-Watches (err e) true prober rounds s = refl
  with_driver-Watches (err e) false prober rounds s = refl
  with_driver-Watches (ok driver) once prober rounds s =
      watch_rounds-Watches once prober rounds driver s

  watch_with-EndsAs :
      (dns : Option DnsConfig) (token : Option String) (once : Bool)
      (prober : ℕ → List ClusterStatus) (rounds : ℕ) (s : DnsSession D.State)
      → EndsAs token once rounds dns (watch_with D fleet dns token once prober dry rounds s).0
  unfolding watch_with
  watch_with-EndsAs none token once prober rounds s = refl
  watch_with-EndsAs (some dns) token once prober rounds s =
      with_driver-Watches (make_driver dns none token) once prober rounds s

-- On a fleet that load_fleet returned and over a driver whose calls all return, the command watch ends
-- with exit code 2 if no DNS is configured; it raises the error of make_driver if no driver can be made;
-- and otherwise, whatever the probes answer and dry or not, it prints one report and ends with exit code 0
-- if it is to make one round, and goes on with a report for every round if it is not.
pub cmd_watch_loaded :
    {R : Type 0} (files : Files R) (read_fields : R → Result Fleet) (path environ : Option String)
    (fleet : Fleet) (D : DnsDriver) (token : Option String) (once : Bool)
    (prober : ℕ → List ClusterStatus) (dry : Bool) (rounds : ℕ) (s : DnsSession D.State)
    → load_fleet files read_fields path environ ≡ ok fleet
    → EndsAs token once rounds fleet.dns (cmd_watch D fleet token once prober dry rounds s).0
unfolding cmd_watch
cmd_watch_loaded files read_fields path environ fleet D token once prober dry rounds s loaded =
    watch_with-EndsAs D fleet (load_fleet-IsAccepted files read_fields path environ fleet loaded)
      dry fleet.dns token once prober rounds s
