-- ===== src/Tests/Finishing.antt =====
-- A whole run of a plan with one command, from the first push to the return of `execute`.
use software.Base.{◌≡◌, refl, true, false, [], ◌∷◌, if◌then◌else◌, ◌==◌, pos, arith, some}
use software.Builder.Plan.{Plan, init, is_valid}
use software.Builder.Exec.{
  Config, config, Exec, initial, Reach, here, next, mains, enters, starts, succeeds, finishes, push,
  enter, start, succeed, finish, main, result, starting, head, awaiting, draining, returned,
  success, ended,
}
use software.Builder.Exec.Inv.{IsPlan}
use software.Builder.Exec.Safe.{RootsFirst}
use software.Builder.Exec.Prepared.{IsPrepared, config-IsPlan, config-RootsFirst}
use software.Builder.Exec.Ends.{success-ended}
use software.Builder.Exec.Rest.{rest-ended}
use software.Builder.Node.{Heap}
use software.Tests.Planning.{node, planning}

abbrev single : Heap
single c = node []

single-IsPrepared : IsPrepared (7 ∷ []) single
single-IsPrepared = record {
  distinct_cmds = refl;
  distinct_dependencies = λ c. refl;
  fresh = λ c. refl;
  closed = λ c d m k. absurd (cc);
}

abbrev single_plan : Plan
single_plan = record {
  commands = 7 ∷ [];
  unprocessed_commands = [];
  heap = λ i. if i == 7 then node [] else node [];
}

init-single : init (7 ∷ []) single ≡ some single_plan
unfolding planning
init-single = refl

single-is_valid : is_valid single_plan ≡ true
unfolding planning
single-is_valid = refl

abbrev one : Config
one = config single_plan (pos 0) true false

one-IsPlan : IsPlan one
one-IsPlan =
    config-IsPlan single_plan (pos 0) true false (7 ∷ []) single single-IsPrepared init-single
      single-is_valid

one-RootsFirst : RootsFirst one one.commands
unfolding config
one-RootsFirst =
    config-RootsFirst single_plan (pos 0) true false (7 ∷ []) single init-single single-is_valid

abbrev at_head : Exec
at_head = record (push 7 (initial one)) { phase = head }

abbrev waits : Exec
waits = record at_head { fs = []; phase = awaiting (7 ∷ []) false }

abbrev worked : Exec
worked = finish one false 7 (succeed one 7 (start 7 (enter 7 waits)))

abbrev counted : Exec
counted = record worked { i = 1; phase = awaiting [] false }

abbrev done : Exec
done = record counted { phase = returned success }

finishing : Unit {0}
unfolding config initial push enter start succeed finish main result
finishing = tt

worked-Reach : Reach one (initial one) worked
unfolding finishing
worked-Reach =
    next
      (next
        (next
          (next
            (next
              (next
                (next here
                  (mains false (record (push 7 (initial one)) { phase = starting [] }) refl))
                (mains false at_head refl))
              (mains false waits refl))
            (enters 7 refl))
          (starts 7 refl))
        (succeeds 7 refl))
      (finishes 7 false refl)

done-Reach : Reach one (initial one) done
unfolding finishing
done-Reach =
    next
      (next
        (next (next worked-Reach (mains false counted refl))
          (mains false (record counted { phase = head }) refl))
        (mains false (record counted { phase = draining }) refl))
      (mains false done refl)

success-ended_example : done.status 7 ≡ ended
unfolding finishing
success-ended_example =
    success-ended one done 7 one-IsPlan one-RootsFirst done-Reach refl refl refl refl

rest-ended_example : worked.status 7 ≡ ended
unfolding finishing
rest-ended_example =
    rest-ended one worked (7 ∷ []) one-IsPlan one-RootsFirst ((λ d m. absurd (cc)), tt) (λ c. refl)
      worked-Reach refl (λ c m. ground arith) 7 refl
