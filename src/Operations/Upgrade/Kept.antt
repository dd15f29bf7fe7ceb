-- ===== src/Operations/Upgrade/Kept.antt =====
-- The steps of an upgrade in src/solfleet/operations.py keep every relation that their commands keep.
use solfleet.Prelude.{List, [], ◌∷◌, ◌++◌, String, Option, none, some, All}
use solfleet.Prelude.Text.{Text, str}
use solfleet.Config.{Node}
use solfleet.Builder.{Artifact}
use solfleet.Builder.Kept.{remote_sha256-Keeps}
use solfleet.Executor.{
  Env, World, Effect, ran, after, Target, node_target, ssh_argv, scp_from_argv, scp_to_argv,
}
use solfleet.Executor.Inspect.{inspect_node}
use solfleet.Executor.Frames.{Frame, Keeps, chain}
use solfleet.Operations.Restart.Planned.{after_all, inspection_effects, inspect_node-effects}
use solfleet.Operations.Upgrade.{dest_for}
use solfleet.Operations.Upgrade.Distribute.{place_at, distribute}

module _ (F : Frame) (env : Env) where
  after_all-Kept : (w : World) (es : List Effect) → All F.Allowed es → F.Kept w (after_all w es)
  after_all-Kept w [] h = F.kept_refl w
  after_all-Kept w (e ∷ es) h = chain F (F.kept_after w e h.0) (after_all-Kept (after w e) es h.1)

  pub inspect_node-Keeps :
      (node : Node) → All F.Allowed (inspection_effects node) → Keeps F (inspect_node env node)
  inspect_node-Keeps node h w =
      rw (inspect_node-effects env node w) (after_all-Kept w (inspection_effects node) h)

  module _ (builder : Target) (target : Node) (staging : String)
      (pulls : (a b : Text) → F.Allowed (ran (scp_from_argv builder a b)))
      (pushes : (a dest : Text)
        → F.Allowed (ran (scp_to_argv (node_target target) a (dest ++ (str ".solfleet-new" ∷ [])))))
      (sums : (path : Text)
        → F.Allowed (ran (ssh_argv (node_target target) (str "sha256sum " ∷ path)))) where
    place_at-Keeps :
        (art : Artifact) (dest : Option Text)
        → Keeps F (place_at env builder target staging art dest)
    unfolding place_at
    place_at-Keeps art none w = F.kept_refl w
    place_at-Keeps art (some dest) w = chain F (F.kept_after w _ (pulls _ _)) (
        chain F (F.kept_after _ _ (pushes _ dest))
          (remote_sha256-Keeps F env (node_target target) _ (sums _) _))

    pub distribute-Keeps :
        (arts : List Artifact) → Keeps F (distribute env builder target staging arts)
    unfolding distribute
    distribute-Keeps [] w = F.kept_refl w
    distribute-Keeps (art ∷ arts) w =
        chain F (place_at-Keeps art (dest_for target art.name) w) (distribute-Keeps arts _)
