-- ===== src/Route.antt =====
-- The trait `DnsRoute` of crates/dns-host-config/src/lib.rs: an object that configures a host's DNS and
-- takes that back, what a caller may rely on, and what follows for any sequence of calls.
use dns_announce.Shared.{◌≡◌, refl, ap, ◌∙◌, Bool, true, false, List, [], ◌∷◌}
use dns_announce.Shared.Methods.{Result, ok, err, Method}
use dns_announce.Text.{Text}
use dns_announce.Config.{DnsRouteConfig}

-- `State` is the object with all that its methods act on.
pub record DnsRoute : Type 1 where
  pub State : Type 0
  pub Error : Type 0
  pub set : Text → DnsRouteConfig → Method State Error (Unit {0})
  pub reset : Method State Error (Unit {0})

-- What a method made of the flag that tells whether there is something to undo.
abbrev pub set_flag : {E : Type 0} → Bool → Result E (Unit {0}) → Bool
set_flag before (ok x) = true
set_flag before (err e) = before

-- What the trait documents of `reset`, and that a `set` that failed leaves the object as ready to be
-- reset as it was.
pub record IsDnsRoute (route : DnsRoute) (active : route.State → Bool) : Type 0 where
  pub set_active :
      (interface : Text) (config : DnsRouteConfig) (s : route.State)
      → active (route.set interface config s).0
        ≡ set_flag (active s) (route.set interface config s).1
  pub reset_inactive : (s : route.State) → active (route.reset s).0 ≡ false
  pub reset_idle : (s : route.State) → active s ≡ false → route.reset s ≡ (s, ok tt)

pub data Call : Type 0 where
  set_call : Text → DnsRouteConfig → Call
  reset_call : Call

module _ (route : DnsRoute) where
  open route use {State, Error}

  -- One call, and a sequence of them by a caller that goes on after an error.
  unfoldable pub call : Call → Method State Error (Unit {0})
  call (set_call interface config) = route.set interface config
  call reset_call = route.reset

  unfoldable pub calls : List Call → State → State
  calls [] s = s
  calls (c ∷ cs) s = calls cs (call c s).0

  -- Whether there is something to undo, told from the results alone.
  unfoldable pub flag_after : Bool → Call → Result Error (Unit {0}) → Bool
  flag_after before (set_call interface config) r = set_flag before r
  flag_after before reset_call r = false

  unfoldable pub flag_of : Bool → List Call → State → Bool
  flag_of before [] s = before
  flag_of before (c ∷ cs) s = flag_of (flag_after before c (call c s).1) cs (call c s).0

  module _ (active : State → Bool) (lawful : IsDnsRoute route active) where
    call-flag_after :
        (c : Call) (s : State) → active (call c s).0 ≡ flag_after (active s) c (call c s).1
    unfolding call flag_after
    call-flag_after (set_call interface config) s = lawful.set_active interface config s
    call-flag_after reset_call s = lawful.reset_inactive s

    -- The object's own flag is the one that its caller can work out.
    pub active-calls : (cs : List Call) (s : State) → active (calls cs s) ≡ flag_of (active s) cs s
    unfolding calls flag_of
    active-calls [] s = refl
    active-calls (c ∷ cs) s =
        active-calls cs (call c s).0 ∙ ap (λ b. flag_of b cs (call c s).0) (call-flag_after c s)

    -- After calls none of which left something to undo, `reset` does nothing.
    pub reset-calls :
        (cs : List Call) (s : State)
        → flag_of (active s) cs s ≡ false
        → route.reset (calls cs s) ≡ (calls cs s, ok tt)
    reset-calls cs s e = lawful.reset_idle (calls cs s) (active-calls cs s ∙ e)
