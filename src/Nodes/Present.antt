-- ===== src/Nodes/Present.antt =====
-- `action_driver_nodes` over the file system's device nodes: a success means that they are there.
use project_linux.Base.{
  ◌≡◌, ◌∙◌, ap, inl, inr, refl, true, false, Bool, Bool-cases, some, List, [], ◌∷◌, ◌++◌, ◌==◌, All,
  arith,
}
use project_linux.Text.{Str}
use project_linux.Value.{Json, file_not_found, Result, ok, raise, timeout_expired}
use project_linux.Value.Exec.{Exec, pure, except, continue}
use project_linux.FilePath.{FilePath}
use project_linux.Ansi.{clean_output}
use project_linux.Host.{Host, App, Call, Completed, Stat}
use project_linux.Command.{CmdResult, Reply, is_zero}
use project_linux.Command.Outcome.{outcome}
use project_linux.Command.Sudo.{sudo_call, run_call, run_sudo_cmd_lem}
use project_linux.Nodes.{
  Node, nodes, Round, message, give_up, check_stat, created_round, create, missing, settle, ensure,
  grant, loop, action_driver_nodes,
}
use project_linux.Nodes.Devices.{IsSudo, mknod_args, chmod_args, Devices, sudo_call-IsSudo, stat_eq}

abbrev pub succeeded : Result Reply → Bool
succeeded (ok r) = r.is_ok
succeeded (raise e) = false

module _ (H : Host) (D : Devices H) (data' : Json) where
  abbrev pub IsPresent : App H → Node → Type 0
  IsPresent s node =
      D.entry node.path s.world ≡ some (record { is_chr = true; major = 42; minor = node.minor })

  -- What was there is there, with its kind and its numbers.
  abbrev pub Keeps : App H → App H → Type 0
  Keeps s t = (q : FilePath) (st : Stat) → D.entry q s.world ≡ some st → D.entry q t.world ≡ some st

  -- A round that goes on has its node; one that gives up says so.
  abbrev Made : Node → Result Round → App H → Type 0
  Made node (ok (message m)) t = IsPresent t node
  Made node (ok (give_up r)) t = r.is_ok ≡ false
  Made node (raise e) t = Unit {0}

  abbrev Settled : Node → App H → Result Round × App H → Type 0
  Settled node s (x, t) = Keeps s t × Made node x t

  check_stat-Made :
      (node : Node) (st : Stat) (t : App H)
      → D.entry node.path t.world ≡ some st
      → Made node (ok (check_stat node st)) t
  unfolding check_stat
  check_stat-Made node st t h = elim (Bool-cases st.is_chr) [
    | inr e ↦ rw e refl
    | inl e ↦ elim (Bool-cases (st.major == 42)) [
      | inr m ↦ rw (e, m) refl
      | inl m ↦ elim (Bool-cases (st.minor == node.minor)) [
        | inr n ↦ rw (e, m, n) refl
        | inl n ↦ rw (e, m, n) (h ∙ ap some (stat_eq st node.minor e (ground arith) (ground arith)))
      ]
    ]
  ]

  completed-Made :
      (node : Node) (t : App H) (r : Completed)
      → (is_zero r.returncode ≡ true → IsPresent t node)
      → Made node
          (ok (
            created_round node (record {
              is_ok = is_zero r.returncode;
              code = r.returncode;
              output = clean_output r.stdout;
            })))
          t
  completed-Made node t r h = elim (Bool-cases (is_zero r.returncode)) [
    | inl e ↦ rw e (h e)
    | inr n ↦ rw n refl
  ]

  -- What one call comes to, whatever the operating system answers.
  answered-Made :
      (node : Node) (t : App H) (o : Result Completed)
      → ((r : Completed) → o ≡ ok r → is_zero r.returncode ≡ true → IsPresent t node)
      → Made node (continue (λ created. pure (created_round node created)) (outcome 120 o, t)).0 t
  answered-Made node t (ok r) h = completed-Made node t r (h r refl)
  answered-Made node t (raise (timeout_expired out)) h = refl
  answered-Made node t (raise (file_not_found m)) h = refl
  answered-Made node t (raise _) h = tt

  answered_state :
      {A : Type 0} (f : CmdResult → A) (o : Result Completed) (t : App H)
      → (continue (λ created. pure (f created)) (outcome 120 o, t)).1 ≡ t
  answered_state f (ok r) t = refl
  answered_state f (raise (timeout_expired out)) t = refl
  answered_state f (raise (file_not_found m)) t = refl
  answered_state f (raise _) t = refl

  created-Settled :
      (node : Node) (s : App H) (rc : Result Call)
      → ((c : Call) → rc ≡ ok c → IsSudo (mknod_args node.path node.minor) c)
      → Settled node s
          (continue (λ created. pure (created_round node created)) (run_call H 120 rc s))
  created-Settled node s (raise e) sudo = ((λ q st h. h), tt)
  created-Settled node s (ok c) sudo =
      let o = (H.run c s.world).0 in
      let t : App H = record s { world = (H.run c s.world).1 } in
      let is_sudo = sudo c refl in
      (
        λ q st h.
            rw (answered_state (created_round node) o t)
              (D.mknod_keeps c node.path node.minor q s.world is_sudo h),
        rw (answered_state (created_round node) o t) (
            answered-Made node t o
              (λ r e z. D.mknod_makes c node.path node.minor s.world is_sudo e z)),
      )

  create-Settled : (node : Node) (s : App H) → Settled node s (create H data' node s)
  unfolding create
  create-Settled node s =
      let args = mknod_args node.path node.minor in
      rw (run_sudo_cmd_lem H data' args H.root 120 s) (
        created-Settled node s (sudo_call data' args H.root 120)
          (sudo_call-IsSudo data' args H.root 120))

  stat-Settled :
      (node : Node) (s : App H) (r : Result Stat)
      → ((st : Stat) → r ≡ ok st → D.entry node.path s.world ≡ some st)
      → Settled node s (
          continue
            (settle H data' node)
            (except (missing H data') (continue (λ st. pure (some st)) (r, s))))
  stat-Settled node s (ok st) tells = ((λ q st' h. h), check_stat-Made node st s (tells st refl))
  stat-Settled node s (raise (file_not_found m)) tells = create-Settled node s
  stat-Settled node s (raise _) tells = ((λ q st h. h), tt)

  Settled-after :
      (node : Node) (s t : App H) (x : Result Round × App H)
      → Keeps s t
      → Settled node t x
      → Settled node s x
  Settled-after node s t (x, u) k (l, m) = ((λ q st h. l q st (k q st h)), m)

  ensure-Settled : (node : Node) (s : App H) → Settled node s (ensure H data' node s)
  unfolding ensure
  ensure-Settled node s =
      let t : App H = record s { world = (H.stat node.path s.world).1 } in
      Settled-after node s t (ensure H data' node s) (λ q st h. D.stat_keeps node.path q s.world h)
        (stat-Settled node t (H.stat node.path s.world).0
          (λ st e. D.stat_tells node.path s.world e))

  abbrev Ended : List Node → App H → Result Reply × App H → Type 0
  Ended ns s (x, t) = Keeps s t × (succeeded x ≡ true → All (IsPresent t) ns)

  chmod-Keeps :
      (f : CmdResult → Reply) (s : App H) (rc : Result Call)
      → ((c : Call) → rc ≡ ok c → IsSudo chmod_args c)
      → Keeps s (continue (λ created. pure (f created)) (run_call H 120 rc s)).1
  chmod-Keeps f s (raise e) sudo q st h = h
  chmod-Keeps f s (ok c) sudo q st h =
      rw (answered_state f (H.run c s.world).0 (record s { world = (H.run c s.world).1 }))
        (D.chmod_keeps c q s.world (sudo c refl) h)

  grant-Ended : (ms : List Str) (s : App H) → Ended [] s (grant H data' ms s)
  unfolding grant
  grant-Ended ms s = rw (run_sudo_cmd_lem H data' chmod_args H.root 120 s) (
    chmod-Keeps _ s (sudo_call data' chmod_args H.root 120)
        (sudo_call-IsSudo data' chmod_args H.root 120),
    λ h. tt,
  )

  abbrev onward : List Node → List Str → Round → Exec (App H) Reply
  onward ns ms round = elim round [
    | give_up r ↦ pure r
    | message m ↦ loop H data' ns (ms ++ (m ∷ []))
  ]

  next-Ended :
      (node : Node) (ns : List Node) (ms : List Str) (s : App H) (x : Result Round × App H)
      → ((ms : List Str) (t : App H) → Ended ns t (loop H data' ns ms t))
      → Settled node s x
      → Ended (node ∷ ns) s (continue (onward ns ms) x)
  next-Ended node ns ms s (ok (message m), t) rest (k, present) =
      let (l, done) = rest (ms ++ (m ∷ [])) t in
      (λ q st h. l q st (k q st h), λ h. (l _ _ present, done h))
  next-Ended node ns ms s (ok (give_up r), t) rest (k, m) = (k, λ h. absurd (ground arith))
  next-Ended node ns ms s (raise e, t) rest (k, m) = (k, λ h. absurd (ground arith))

  loop-Ended : (ns : List Node) (ms : List Str) (s : App H) → Ended ns s (loop H data' ns ms s)
  unfolding loop
  loop-Ended [] ms s = grant-Ended ms s
  loop-Ended (node ∷ ns) ms s =
      next-Ended node ns ms s (ensure H data' node s) (loop-Ended ns) (ensure-Settled node s)

  -- After `action_driver_nodes`, whether it succeeds, reports an error or raises, every file that was
  -- there before is there with its kind and its numbers.
  pub action_driver_nodes_keeps :
      (s : App H) (q : FilePath) (st : Stat)
      → D.entry q s.world ≡ some st
      → D.entry q (action_driver_nodes H data' s).1.world ≡ some st
  unfolding action_driver_nodes
  action_driver_nodes_keeps s = (loop-Ended nodes [] s).0

  -- Where `action_driver_nodes` replies with `ok`, each of the two nodes is afterwards a character
  -- device with major number 42 and the minor number that it is to have.
  pub action_driver_nodes-IsPresent :
      (s : App H)
      → succeeded (action_driver_nodes H data' s).0 ≡ true
      → All (IsPresent (action_driver_nodes H data' s).1) nodes
  unfolding action_driver_nodes
  action_driver_nodes-IsPresent s = (loop-Ended nodes [] s).1
