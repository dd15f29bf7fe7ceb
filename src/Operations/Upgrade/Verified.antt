-- ===== src/Operations/Upgrade/Verified.antt =====
-- What an upgrade may rely on: the checksums of `distribute`, the verdicts of `plan_upgrade` and of
-- `_version_matches` in src/solfleet/operations.py.
use mathlib.Core.List.{append-nil, append_assoc}
use solfleet.Prelude.{
  sym, Bool, true, false, ◌&&◌, ◌||◌, not, List, [], ◌∷◌, ◌++◌, String, if◌then◌else◌, Option, none,
  some, is_some, ◌==◌, ◌≡◌, refl, arith, inl, inr, Bool-cases, ap, ◌∙◌,
}
use solfleet.Prelude.Text.{Text, str}
use solfleet.Prelude.Strings.{split, lstrip_char, starts_with}
use solfleet.Safety.{Policy, for_cluster, version_allowed, dry_run}
use solfleet.Safety.Gate.{is_empty-failed_messages}
use solfleet.Config.{Node, Fleet}
use solfleet.Config.Find.{Found, find_node, find_builder}
use solfleet.Builder.{Artifact}
use solfleet.Executor.{
  CommandResult, ok, Env, World, Target, Effect, ran, node_target, ssh_argv, scp_from_argv,
  scp_to_argv, run, run_argv,
}
use solfleet.Executor.Steps.{first_word, scp_from, scp_to, remote_sha256}
use solfleet.Operations.{reply}
use solfleet.Operations.Upgrade.{
  dest_for, builder_of, builds_geyser, plan_upgrade, upgrade_checks, UpgradePlan, plan_found,
}
use solfleet.Operations.Upgrade.Distribute.{
  same_sha, keeps_ok, place_at, distribute, version_matches,
}

-- The commands that bring an artifact to its place beside the destination, in their order.
module _ (builder : Target) (target : Node) (staging : String) (art : Artifact) (dest : Text) where
  abbrev here : Text
  here = str staging ∷ str "/" ∷ str art.name ∷ []

  abbrev beside : Text
  beside = dest ++ (str ".solfleet-new" ∷ [])

  abbrev pull_of : List Text
  pull_of = scp_from_argv builder art.remote_path here

  abbrev push_of : List Text
  push_of = scp_to_argv (node_target target) here beside

  abbrev sum_of : List Text
  sum_of = ssh_argv (node_target target) (str "sha256sum " ∷ beside)

  abbrev transfer : List Effect
  transfer = ran pull_of ∷ ran push_of ∷ ran sum_of ∷ []

module _ (builder : Target) (target : Node) (staging : String) where
  -- All that a distribution does outside.
  abbrev pub transfers : List Artifact → List Effect
  transfers [] = []
  transfers (art ∷ arts) = elim (dest_for target art.name) [
    | none ↦ transfers arts
    | some dest ↦ transfer builder target staging art dest ++ transfers arts
  ]

abbrev is_word : Option String → String → Bool
is_word none h = false
is_word (some g) h = g == h

-- The command succeeded, and the first word that it printed is this one.
abbrev prints : CommandResult → Option String → Bool
prints r expected = elim expected [
  | none ↦ false
  | some h ↦ ok r && is_word (first_word (split r.stdout)) h
]

same_sha-prints :
    (good : Bool) (word expected : Option String)
    → same_sha (if good then word else none) expected
      ≡ elim expected [ none ↦ false | some h ↦ good && is_word word h ]
same_sha-prints true none none = refl
same_sha-prints true none (some h) = refl
same_sha-prints true (some g) none = refl
same_sha-prints true (some g) (some h) = refl
same_sha-prints false word none = refl
same_sha-prints false word (some h) = refl

and_cong : {a b c d : Bool} → a ≡ b → c ≡ d → (a && c) ≡ (b && d)
and_cong p q = rw (p, q) refl

append_three :
    (es : List Effect) (a b c : Effect)
    → ((es ++ a ∷ []) ++ b ∷ []) ++ c ∷ [] ≡ es ++ a ∷ b ∷ c ∷ []
append_three [] a b c = refl
append_three (e ∷ es) a b c = ap (λ t. e ∷ t) (append_three es a b c)

module _ (env : Env) (builder : Target) (target : Node) (staging : String) where
  -- The pull from the builder succeeds, then the push to the node does, and then the checksum that the node
  -- takes of the pushed file is the one that the builder gave.
  abbrev pub arrives : List Effect → Artifact → Text → Bool
  arrives es art dest =
      let pulled = es ++ ran (pull_of builder target staging art dest) ∷ [] in
      let pushed = pulled ++ ran (push_of builder target staging art dest) ∷ [] in
      ok (env.runner es (pull_of builder target staging art dest))
      && ok (env.runner pulled (push_of builder target staging art dest))
      && prints (env.runner pushed (sum_of builder target staging art dest)) art.sha256

  -- Every artifact arrives, one behind the other, but for those that the node has no destination for.
  abbrev pub all_arrive : List Effect → List Artifact → Bool
  all_arrive es [] = true
  all_arrive es (art ∷ arts) = elim (dest_for target art.name) [
    | none ↦ all_arrive es arts
    | some dest ↦
        arrives es art dest && all_arrive (es ++ transfer builder target staging art dest) arts
  ]

starts_with_self : (s : String) → starts_with s s ≡ true
unfolding starts_with
starts_with_self String.[] = refl
starts_with_self (String.◌∷◌ c s) = ground (arith, starts_with_self s)

starts_with_eq : (t r : String) → (r == t) ≡ true → starts_with t r ≡ true
starts_with_eq t r h = let e : r ≡ t = ground arith in rw e (starts_with_self t)

module _ (env : Env) (builder : Target) (target : Node) (staging : String) where
  place_at-arrives :
      (art : Artifact) (dest : Text) (w : World)
      → (keeps_ok (place_at env builder target staging art (some dest) w).0
          ≡ arrives env builder target staging w.effects art dest)
        × ((place_at env builder target staging art (some dest) w).1.effects
            ≡ w.effects ++ transfer builder target staging art dest)
  unfolding place_at scp_from scp_to remote_sha256 run run_argv
  place_at-arrives art dest w =
      let pull = pull_of builder target staging art dest in
      let push = push_of builder target staging art dest in
      let pulled = w.effects ++ ran pull ∷ [] in
      let pushed = pulled ++ ran push ∷ [] in
      let r = env.runner pushed (sum_of builder target staging art dest) in
      (
        ap (λ b. ok (env.runner w.effects pull) && ok (env.runner pulled push) && b)
            (same_sha-prints (ok r) (first_word (split r.stdout)) art.sha256),
        append_three w.effects _ _ _,
      )

  place-step :
      (art : Artifact) (arts : List Artifact) (d : Option Text) (w : World)
      → ((w' : World)
          → ((distribute env builder target staging arts w').0.0
              ≡ all_arrive env builder target staging w'.effects arts)
            × ((distribute env builder target staging arts w').1.effects
                ≡ w'.effects ++ transfers builder target staging arts))
      → let placed = place_at env builder target staging art d w in
        let rest = distribute env builder target staging arts placed.1 in
        ((keeps_ok placed.0 && rest.0.0) ≡ elim d [
          | none ↦ all_arrive env builder target staging w.effects arts
          | some dest ↦
              arrives env builder target staging w.effects art dest
              && all_arrive env builder target staging
                  (w.effects ++ transfer builder target staging art dest)
                  arts
        ])
        × (rest.1.effects
            ≡ w.effects ++ elim d [
              | none ↦ transfers builder target staging arts
              | some dest ↦
                  transfer builder target staging art dest ++ transfers builder target staging arts
            ])
  place-step art arts none w rest = unfold place_at in rest w
  place-step art arts (some dest) w rest =
      let placed = place_at env builder target staging art (some dest) w in
      let (good, done) = place_at-arrives art dest w in
      let (all_good, all_done) = rest placed.1 in
      (
        and_cong good (all_good ∙ ap (λ es. all_arrive env builder target staging es arts) done),
        all_done
            ∙ ap (λ es. es ++ transfers builder target staging arts) done
            ∙ append_assoc w.effects (transfer builder target staging art dest)
                (transfers builder target staging arts),
      )

  -- A distribution runs, for each artifact in turn that the node has a destination for, the pull from the
  -- builder, the push to the node and the checksum on the node, and it is ok exactly if each of those
  -- pulls and pushes succeeds and each of those checksums is the one that the builder gave.
  pub distribute_exact :
      (arts : List Artifact) (w : World)
      → ((distribute env builder target staging arts w).0.0
          ≡ all_arrive env builder target staging w.effects arts)
        × ((distribute env builder target staging arts w).1.effects
            ≡ w.effects ++ transfers builder target staging arts)
  unfolding distribute
  distribute_exact [] w = (refl, sym (append-nil w.effects))
  distribute_exact (art ∷ arts) w =
      place-step art arts (dest_for target art.name) w (distribute_exact arts)

-- A reported version matches a target exactly if it is not empty and begins with the target, both without
-- the v in front: so 4.1.10 matches the target 4.1.1.
pub version_matches_exact :
    (reported target : String)
    → version_matches (some reported) target
      ≡ (not (reported == "") && starts_with (lstrip_char b'v' target) (lstrip_char b'v' reported))
unfolding version_matches
version_matches_exact reported target =
    elim (Bool-cases (lstrip_char b'v' reported == lstrip_char b'v' target)) [
      | inl same ↦ rw (same, starts_with_eq _ _ same) (ground arith)
      | inr other ↦ ground arith
    ]

all_four : (a b c d : Bool) → (a && (b && (c && (d && true)))) ≡ (a && b && c && d)
all_four a b c d = ground arith

-- The plan of an upgrade of a known node is a dry run, whose verdict is that the policy allows the
-- version, that a builder is configured and is found in the fleet, and that there is a path for the geyser
-- plugin if one is built.
plan_upgrade-allowed :
    (fleet : Fleet) (policy : Policy) (node_name target_version : String) (found : Found)
    → find_node fleet node_name ≡ some found
    → (plan : UpgradePlan) × (plan_upgrade fleet policy node_name target_version ≡ reply plan)
      × (plan.decision.mode ≡ dry_run)
      × (plan.decision.allowed ≡ (
          version_allowed (for_cluster policy found.0) (some target_version)
          && is_some (builder_of found.1.install)
          && is_some (find_builder fleet (builder_of found.1.install))
          && (not (builds_geyser found.1.install) || is_some found.2.service.geyser_lib)))
unfolding plan_upgrade
plan_upgrade-allowed fleet policy node_name target_version found e =
    let rules = for_cluster policy found.0 in
    let builder = builder_of found.1.install in
    let builder_node = find_builder fleet builder in
    (
      plan_found fleet policy node_name target_version found,
      rw (e, plan_upgrade) refl,
      refl,
      is_empty-failed_messages
            (upgrade_checks found.0 found.1 found.2 rules target_version builder_node)
          ∙ all_four (version_allowed rules (some target_version)) (is_some builder)
              (is_some builder_node)
              (not (builds_geyser found.1.install) || is_some found.2.service.geyser_lib),
    )
