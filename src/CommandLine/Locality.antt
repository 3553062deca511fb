-- ===== src/CommandLine/Locality.antt =====
-- Every command line is taken or refused, and all that is taken names only local files on a worker.
use distray.Base.{
  ℕ, zero, suc, ◌≤◌, ◌<◌, ◌≡◌, inl, inr, refl, sym, ◌∙◌, Bool, true, false, ◌||◌, not, List, [],
  ◌∷◌, if◌then◌else◌, arith, Bytes, codes, eq_bytes, length, All, All-append, Bool-cases, subst,
  ◌≢◌,
}
use distray.Frames.{Frames, parse}
use distray.Util.Pathname.{is_pathname_local}
use distray.Parameters.{
  Parameters, Command, cmd_unspecified, cmd_worker, cmd_proxy, cmd_controller, cmd_unittest,
  FileCopy,
}
use distray.CommandLine.Outcome.{accepted, refused, Settles, Settles-if, Settles-bind}
use distray.CommandLine.{
  Left, is_controller, is_proxy, next_is_flag, copy_flag, flag, flags, framed, with_one, positional,
  command_of, parse_arguments,
}

-- A pathname on the worker.
abbrev pub IsLocal : Bytes → Type 0
IsLocal path = is_pathname_local path ≡ true

-- The copies of the parameters name local files on the worker, and flags as their constructor sets
-- them.
pub record AreLocal (p : Parameters) : Type 0 where
  pub ins : All (λ c. IsLocal (FileCopy.destination c)) p.in_copies
  pub outs : All (λ c. IsLocal (FileCopy.source c)) p.out_copies

-- The program too, where there is one to run, and there is a command.
abbrev pub RunsLocal : Command → Parameters → Type 0
RunsLocal cmd_controller p = IsLocal p.executable
RunsLocal cmd_unspecified p = ⊥
RunsLocal _ p = Unit

-- What a flag leaves at most, and with which command.
abbrev Shorter : ℕ → Command → Left → Type 0
Shorter n command (args, p) = (length args ≤ n) × (p.command ≡ command) × AreLocal p

module _ (p : Parameters) (local : AreLocal p) where
  -- A flag with one argument, under its test of the command.
  one_flag :
      (b : Bool) (f : Bytes → Parameters) (args : List Bytes)
      → ((a : Bytes) → ((f a).command ≡ p.command) × AreLocal (f a))
      → Settles (Shorter (length args) p.command) (if b then refused 1 else with_one f args)
  one_flag true f args h = inl refl
  one_flag false f [] h = inl refl
  one_flag false f (a ∷ args) h = (omega arith, (h a).0, (h a).1)

  copy_flag-Settles :
      (is_in : Bool) (args : List Bytes)
      → Settles (Shorter (length args) p.command) (copy_flag is_in p args)
  unfolding copy_flag
  copy_flag-Settles is_in [] = inl refl
  copy_flag-Settles is_in (source ∷ []) = inl refl
  copy_flag-Settles true (source ∷ destination ∷ args) =
      Settles-if _ (not (is_controller p.command)) _ _ (λ _. inl refl)
        λ _. elim (Bool-cases (is_pathname_local destination)) [
          | inr far ↦ rw far (inl refl)
          | inl near ↦ rw near (
            omega arith,
            refl,
            record { ins = All-append _ p.in_copies _ local.ins (near, tt); outs = local.outs },
          )
        ]
  copy_flag-Settles false (source ∷ destination ∷ args) =
      Settles-if _ (not (is_controller p.command)) _ _ (λ _. inl refl)
        λ _. elim (Bool-cases (is_pathname_local source)) [
          | inr far ↦ rw far (inl refl)
          | inl near ↦ rw near (
            omega arith,
            refl,
            record { ins = local.ins; outs = All-append _ p.out_copies _ local.outs (near, tt) },
          )
        ]

  same_copies :
      (q : Parameters) → q.in_copies ≡ p.in_copies → q.out_copies ≡ p.out_copies → AreLocal q
  same_copies q i o = record {
    ins = subst (All (λ c. IsLocal (FileCopy.destination c))) (sym i) local.ins;
    outs = subst (All (λ c. IsLocal (FileCopy.source c))) (sym o) local.outs;
  }

  flag-Settles :
      (arg : Bytes) (args : List Bytes)
      → Settles (Shorter (length args) p.command) (flag arg p args)
  unfolding flag
  flag-Settles arg args =
      Settles-if _ (eq_bytes arg (codes "--proxy")) _ _
        (λ _.
          one_flag (not (is_controller p.command)) _ args (λ a. (refl, same_copies _ refl refl)))
        λ _.
          Settles-if _ (eq_bytes arg (codes "--in") || eq_bytes arg (codes "--out")) _ _
            (λ _. copy_flag-Settles (eq_bytes arg (codes "--in")) args)
            λ _.
              Settles-if _ (eq_bytes arg (codes "--listen")) _ _
                (λ _.
                  one_flag (not (is_controller p.command)) _ args
                    (λ a. (refl, same_copies _ refl refl)))
                λ _.
                  Settles-if _ (eq_bytes arg (codes "--worker-listen")) _ _
                    (λ _.
                      one_flag (not (is_proxy p.command)) _ args
                        (λ a. (refl, same_copies _ refl refl)))
                    λ _.
                      Settles-if _ (eq_bytes arg (codes "--controller-listen")) _ _
                        (λ _.
                          one_flag (not (is_proxy p.command)) _ args
                            (λ a. (refl, same_copies _ refl refl)))
                        (λ _. inl refl)

-- What the loop over the flags leaves.
abbrev Kept : Command → Left → Type 0
Kept command (args, p) = (p.command ≡ command) × AreLocal p

flags-Settles :
    (fuel : ℕ) (p : Parameters) (args : List Bytes)
    → AreLocal p
    → length args < fuel
    → Settles (Kept p.command) (flags fuel p args)
unfolding flags
flags-Settles zero p args local h = absurd (omega arith)
flags-Settles (suc fuel) p [] local h = (refl, local)
flags-Settles (suc fuel) p (arg ∷ args) local h = elim (Bool-cases (next_is_flag (arg ∷ args))) [
  | inr plain ↦ rw (plain, flags) (refl, local)
  | inl dashed ↦
      rw (dashed, flags)
        (Settles-bind (Shorter (length args) p.command) (Kept p.command) (flag arg p args) _
          (flag-Settles p local arg args)
          λ (args', p') (shorter, same, local').
            subst (λ c. Settles (Kept c) (flags fuel p' args')) same
              (flags-Settles fuel p' args' local' (omega arith)))
]

-- What is taken.
abbrev pub IsTaken : Parameters → Type 0
IsTaken p = AreLocal p × RunsLocal p.command p

positional-Settles :
    (command : Command) (p : Parameters) (args : List Bytes)
    → AreLocal p
    → p.command ≡ command
    → command ≢ cmd_unspecified
    → Settles IsTaken (positional command p args)
unfolding positional
positional-Settles cmd_unspecified p args local e n = absurd (n refl)
positional-Settles cmd_worker p [] local e n = inl refl
positional-Settles cmd_worker p (a ∷ []) local e n = (same_copies p local _ refl refl, rw e tt)
positional-Settles cmd_worker p (a ∷ b ∷ args) local e n = inl refl
positional-Settles cmd_proxy p [] local e n = (local, rw e tt)
positional-Settles cmd_proxy p (a ∷ args) local e n = inl refl
positional-Settles cmd_controller p [] local e n = inl refl
positional-Settles cmd_controller p (a ∷ []) local e n = inl refl
positional-Settles cmd_controller p (spec ∷ executable ∷ args) local e n = go (parse p.frames spec)
  where
    go : (r : Frames × Bool) → Settles IsTaken (framed r executable args p)
    go (f, false) = inl refl
    go (f, true) = elim (Bool-cases (is_pathname_local executable)) [
      | inr far ↦ rw far (inl refl)
      | inl near ↦ rw near (same_copies p local _ refl refl, rw e near)
    ]
positional-Settles cmd_unittest p [] local e n = (local, rw e tt)
positional-Settles cmd_unittest p (a ∷ args) local e n = inl refl

abbrev Known : Command → Type 0
Known c = c ≢ cmd_unspecified

command_of-Settles : (arg : Bytes) → Settles Known (command_of arg)
unfolding command_of
command_of-Settles arg =
    Settles-if Known
      (eq_bytes arg (codes "--help") || eq_bytes arg (codes "-h") || eq_bytes arg (codes "help"))
      (refused 2) _ (λ _. inr refl)
      λ _.
        Settles-if Known (eq_bytes arg (codes "worker")) (accepted cmd_worker) _ (λ _ e. cc)
          λ _.
            Settles-if Known (eq_bytes arg (codes "proxy")) (accepted cmd_proxy) _ (λ _ e. cc)
              λ _.
                Settles-if Known (eq_bytes arg (codes "controller")) (accepted cmd_controller) _
                  (λ _ e. cc)
                  λ _.
                    Settles-if Known (eq_bytes arg (codes "unittest")) (accepted cmd_unittest) _
                      (λ _ e. cc) (λ _. inl refl)

-- On every command line with a program name, parse_arguments ends, with status 1 or 2 or with
-- parameters. In those there is a command, every remote name of a copy is a local pathname, and so is
-- the executable of a controller, if the copies that the object held before were local.
pub parse_arguments-Settles :
    (p : Parameters) (program : Bytes) (args : List Bytes)
    → AreLocal p
    → Settles IsTaken (parse_arguments p (program ∷ args))
unfolding parse_arguments
parse_arguments-Settles p program [] local = inr refl
parse_arguments-Settles p program (arg ∷ args) local =
    Settles-bind Known IsTaken (command_of arg) _ (command_of-Settles arg) λ command known.
      Settles-bind (Kept command) IsTaken
        (flags (suc (length args)) (record p { command = command }) args) _
        (flags-Settles (suc (length args)) (record p { command = command }) args
          (same_copies p local _ refl refl) (omega arith))
        λ (args', p') (same, local').
          positional-Settles p'.command p' args' local' refl (λ e. known (sym same ∙ e))
