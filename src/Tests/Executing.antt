-- ===== src/Tests/Executing.antt =====
-- A run of the diamond of commands, up to the start of the third job.
use software.Base.{ℕ, ◌≡◌, refl, true, false, [], ◌∷◌, mem, pos, arith, distinct}
use software.Builder.Exec.{
  Config, config, Exec, initial, Reach, here, next, mains, enters, starts, succeeds, notifies, push,
  enter, start, succeed, notify, main, starting,
}
use software.Builder.Exec.Inv.{IsPlan}
use software.Builder.Exec.Safe.{RootsFirst}
use software.Builder.Exec.Order.{
  enters_after_dependencies, has_executed, calls_once, calls, step_calls, was_called,
}
use software.Builder.Exec.Prepared.{IsPrepared, config-IsPlan, config-RootsFirst}
use software.Tests.Planning.{
  diamond, commands, diamond_plan, init-diamond, diamond-is_valid, planning,
}

diamond-IsPrepared : IsPrepared commands diamond
diamond-IsPrepared = record {
  distinct_cmds = refl;
  distinct_dependencies = λ c. ground arith;
  fresh = λ c. ground arith;
  closed = λ c d m k. ground arith;
}

abbrev cfg : Config
cfg = config diamond_plan (pos 0) true false

cfg-IsPlan : IsPlan cfg
cfg-IsPlan =
    config-IsPlan diamond_plan (pos 0) true false commands diamond diamond-IsPrepared init-diamond
      diamond-is_valid

cfg-RootsFirst : RootsFirst cfg cfg.commands
unfolding config
cfg-RootsFirst =
    config-RootsFirst diamond_plan (pos 0) true false commands diamond init-diamond diamond-is_valid

abbrev pushed : Exec
pushed = record (push 1 (initial cfg)) { phase = starting (3 ∷ 2 ∷ 4 ∷ []) }

abbrev notified : Exec
notified = notify 1 3 (2 ∷ []) (succeed cfg 1 (start 1 (enter 1 pushed)))

executing : Unit {0}
unfolding config initial push enter start succeed notify main diamond_plan planning calls step_calls
executing = tt

run : Reach cfg (initial cfg) (enter 3 notified)
unfolding executing
run =
    next
      (next
        (next (next (next (next here (mains false pushed refl)) (enters 1 refl)) (starts 1 refl))
          (succeeds 1 refl))
        (notifies 1 3 (2 ∷ []) refl))
      (enters 3 refl)

enters_after_dependencies_example : has_executed ((enter 3 notified).status 1) ≡ true
unfolding executing
enters_after_dependencies_example =
    enters_after_dependencies cfg (enter 3 notified) 3 1 cfg-IsPlan cfg-RootsFirst run refl refl

calls_once_example :
    (distinct (calls run) ≡ true)
    × ((c : ℕ) → mem c (calls run) ≡ was_called ((enter 3 notified).status c))
calls_once_example = calls_once cfg (enter 3 notified) cfg-IsPlan cfg-RootsFirst run

config-IsPlan_example : IsPlan cfg
config-IsPlan_example =
    config-IsPlan diamond_plan (pos 0) true false commands diamond diamond-IsPrepared init-diamond
      diamond-is_valid
