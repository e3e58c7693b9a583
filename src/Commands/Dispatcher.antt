-- ===== src/Commands/Dispatcher.antt =====
-- src/CommandDispatcher.h and src/BaseComputationCommand.h: commands by name, over the one
-- `TypeFactory` of the class.
use asabru_commons.Base.{
  ◌≡◌, Bool, true, false, Bytes, Option, none, some, Outcome, ok, err, exit_failure,
  undefined_behaviour, ◌>>=◌, >>=-eq-ok,
}
use asabru_commons.Commands.Context.{ComputationContext}
use asabru_commons.Commands.TypeFactory.{
  PluginSystem, TypeFactory, load_plugin, get_type, get_type_again,
}

-- The three virtual functions of a command, which may throw.
pub record BaseComputationCommand : Type 0 where
  pub pre_execute : ComputationContext → Outcome (Bool × ComputationContext)
  pub execute : ComputationContext → Outcome (Bool × ComputationContext)
  pub post_execute : ComputationContext → Outcome (Bool × ComputationContext)

-- The base class's own functions.
abbrev pub base_command : BaseComputationCommand
base_command = record {
  pre_execute = λ ctx. ok (true, ctx);
  execute = λ ctx. ok (true, ctx);
  post_execute = λ ctx. ok (true, ctx);
}

-- The static `typeFactory` and the caller's context.
pub record World : Type 0 where
  pub factory : TypeFactory BaseComputationCommand
  pub ctx : ComputationContext

-- The `try` of `RegisterCommand`; `exit` and undefined behaviour are no exceptions. A plugin that
-- throws leaves the factory as it was.
caught :
    TypeFactory BaseComputationCommand
    → Outcome (TypeFactory BaseComputationCommand)
    → Outcome (Bool × TypeFactory BaseComputationCommand)
caught f (ok f') = ok (true, f')
caught f (err undefined_behaviour) = err undefined_behaviour
caught f (err exit_failure) = err exit_failure
caught f (err e) = ok (false, f)

-- Behind `PreExecute`: its result and the context that it left.
after_pre : BaseComputationCommand → Bool × ComputationContext → Outcome (Bool × ComputationContext)
after_pre c (false, ctx) = ok (false, ctx)
after_pre c (true, ctx) = do
  (rs, ctx1) ← c.execute ctx
  (_, ctx2) ← c.post_execute ctx1
  ok (rs, ctx2)

-- `Dispatch` behind `GetType`.
unfoldable pub run_command :
    Option BaseComputationCommand → ComputationContext → Outcome (Bool × ComputationContext)
unfolding after_pre
run_command none ctx = ok (false, ctx)
run_command (some c) ctx = c.pre_execute ctx >>= after_pre c

-- The context and the answer of the command, beside the factory that it was found in.
abbrev pub answer :
    TypeFactory BaseComputationCommand → Bool × ComputationContext → Outcome (Bool × World)
answer f (rs, ctx) = ok (rs, record { factory = f; ctx = ctx })

module _ (sys : PluginSystem BaseComputationCommand) where
  unfoldable pub register_command :
      TypeFactory BaseComputationCommand
      → Bytes
      → Outcome (Bool × TypeFactory BaseComputationCommand)
  unfolding caught
  register_command f name = caught f (load_plugin sys f name)

  unfoldable pub get_command :
      TypeFactory BaseComputationCommand
      → Bytes
      → Outcome (Option BaseComputationCommand × TypeFactory BaseComputationCommand)
  get_command f name = get_type sys f name

  unfoldable pub dispatch : World → Bytes → Outcome (Bool × World)
  dispatch w archetype = do
    (command, f) ← get_type sys w.factory archetype
    run_command command w.ctx >>= answer f

  -- After a `Dispatch` that returned, the answer and the context were those of one command, or of none,
  -- and the next `Dispatch` of the same name, with no other name in between and whatever its context,
  -- runs this command and leaves the factory as it is.
  pub dispatch_again :
      (w w' : World) (archetype : Bytes) (rs : Bool)
      → dispatch w archetype ≡ ok (rs, w')
      → (command : Option BaseComputationCommand) × (run_command command w.ctx ≡ ok (rs, w'.ctx))
        × ((ctx : ComputationContext)
            → dispatch (record { factory = w'.factory; ctx = ctx }) archetype
              ≡ (run_command command ctx >>= answer w'.factory))
  unfolding dispatch
  dispatch_again w w' archetype rs h =
      let ((command, f), e, h1) = >>=-eq-ok (get_type sys w.factory archetype) _ h in
      let ((b, ctx), r, q) = >>=-eq-ok (run_command command w.ctx) (answer f) h1 in
      let again = get_type_again sys w.factory f archetype command e in
      let ctx_eq : run_command command w.ctx ≡ ok (rs, w'.ctx) = cc in
      let again' : get_type sys w'.factory archetype ≡ ok (command, w'.factory) = cc in
      (command, ctx_eq, λ ctx'. rw again')
