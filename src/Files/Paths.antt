-- ===== src/Files/Paths.antt =====
-- `safe_path` only looks, and gives an absolute path.
use project_linux.Base.{◌≡◌, refl, ◌∙◌, Bool, true, false, List, [], ◌∷◌, if◌then◌else◌, arith}
use project_linux.Text.{Str, codes}
use project_linux.Value.{
  Json, null, text, type_error, runtime_error, get, value_or, as_text, Result, ok, raise,
}
use project_linux.Value.Exec.{Exec, pure, throw, lift, ◌>>=◌}
use project_linux.Value.Ensures.{
  Ensures, Ensures-ok, Ensures-of_ok, continue-Ensures, continue_keeps,
}
use project_linux.FilePath.{
  FilePath, Root, relative, slash, double_slash, path_of, is_absolute, ◌/◌,
}
use project_linux.Host.{Host, App, system}
use project_linux.Files.{starts_with_tilde, homed, expand, resolved, safe_path, path_arg}
use project_linux.Files.System.{FileSystem}
use project_linux.Files.Tree.{Tree, HasTree}

root_join :
    (r p : FilePath) → is_absolute r ≡ true → is_absolute p ≡ false → is_absolute (◌/◌ r p) ≡ true
unfolding is_absolute ◌/◌
root_join r p h k = ground arith

module _ (H : Host) (F : FileSystem H) (T : HasTree H F) where
  abbrev pub tree_of : App H → Tree
  tree_of s = T.tree s.world

  -- The tree is the same after an action, whether it returns or raises.
  abbrev pub Looks {ℓ} : {A : Type ℓ} → Exec (App H) A → Type 0
  Looks m = (s : App H) → tree_of (m s).1 ≡ tree_of s

  pub if-Looks {ℓ} :
      {A : Type ℓ} (b : Bool) (m n : Exec (App H) A)
      → Looks m
      → Looks n
      → Looks (if b then m else n)
  if-Looks true m n hm hn = hm
  if-Looks false m n hm hn = hn

  pub lift-Looks {ℓ κ} :
      {A : Type ℓ} {B : Type κ} (r : Result A) (f : A → Exec (App H) B)
      → ((a : A) → Looks (f a))
      → Looks (lift r >>= f)
  lift-Looks (ok a) f h s = h a s
  lift-Looks (raise e) f h s = refl

  pub bind-Looks {ℓ κ} :
      {A : Type ℓ} {B : Type κ} (m : Exec (App H) A) (f : A → Exec (App H) B)
      → Looks m
      → ((a : A) → Looks (f a))
      → Looks (m >>= f)
  bind-Looks m f hm hf s = continue_keeps tree_of (tree_of s) (m s) f (hm s) (λ a t e. hf a t ∙ e)

  homed-Looks : (home : Str) (rest : List Str) → Looks (homed H F home rest)
  homed-Looks home rest =
      if-Looks (starts_with_tilde home) (throw runtime_error) (pure _) (λ s. refl) (λ s. refl)

  expand-Looks : (root : Root) (parts : List Str) → Looks (expand H F root parts)
  unfolding expand
  expand-Looks relative (first ∷ rest) s =
      if-Looks (starts_with_tilde first) _ _
        (λ u. homed-Looks (F.expand_home first u.world).0 rest _ ∙ T.expand_keeps first u.world)
        (λ u. refl) s
  expand-Looks relative [] s = refl
  expand-Looks slash parts s = refl
  expand-Looks double_slash parts s = refl

  resolved-Looks : (p : FilePath) → Looks (resolved H F p)
  resolved-Looks p =
      if-Looks (is_absolute p) (pure p) _ (λ s. refl) (λ s. T.resolve_keeps (◌/◌ H.root p) s.world)

  pub safe_path-Looks : (value : Json) → Looks (safe_path H F value)
  unfolding safe_path
  safe_path-Looks value =
      lift-Looks (as_text type_error (value_or value (text (codes ".")))) _ (λ t.
        bind-Looks (expand H F (path_of t).root (path_of t).parts) (resolved H F)
          (expand-Looks (path_of t).root (path_of t).parts) resolved-Looks)

  pub path_arg-Looks : (data' : Json) (key : Str) → Looks (path_arg H F data' key)
  unfolding path_arg
  path_arg-Looks data' key = lift-Looks (get data' key null) _ (λ v. safe_path-Looks v)

  abbrev Absolute : FilePath → App H → Type 0
  Absolute p s = is_absolute p ≡ true

  module _ (at : is_absolute H.root ≡ true) where
    resolved_case :
        (b : Bool) (p : FilePath) (s : App H)
        → is_absolute p ≡ b
        → Ensures Absolute ((if b then pure p else system H (F.resolve (◌/◌ H.root p))) s)
    resolved_case true p s h = h
    resolved_case false p s h =
        Ensures-of_ok Absolute (system H (F.resolve (◌/◌ H.root p)) s)
          (λ q. T.resolve_absolute (◌/◌ H.root p) s.world (root_join H.root p at h))

    from_text :
        (t : Str) (s : App H)
        → Ensures Absolute
            ((do p ← expand H F (path_of t).root (path_of t).parts; resolved H F p) s)
    from_text t s =
        continue-Ensures Absolute (expand H F (path_of t).root (path_of t).parts s) (resolved H F)
          (λ p e. resolved_case (is_absolute p) p _ refl)

    -- Where the project stands at an absolute path, `safe_path` returns absolute paths only.
    pub safe_path-absolute :
        (value : Json) (s : App H) {p : FilePath}
        → (safe_path H F value s).0 ≡ ok p
        → is_absolute p ≡ true
    unfolding safe_path
    safe_path-absolute value s = Ensures-ok Absolute (safe_path H F value s) (
        continue-Ensures Absolute (as_text type_error (value_or value (text (codes "."))), s)
          (λ t. (do p ← expand H F (path_of t).root (path_of t).parts; resolved H F p))
          (λ t e. from_text t s))

    pub path_arg-absolute :
        (data' : Json) (key : Str) (s : App H) {p : FilePath}
        → (path_arg H F data' key s).0 ≡ ok p
        → is_absolute p ≡ true
    unfolding path_arg
    path_arg-absolute data' key s = Ensures-ok Absolute (path_arg H F data' key s) (
        continue-Ensures Absolute (get data' key null, s) (safe_path H F)
          (λ v e. Ensures-of_ok Absolute (safe_path H F v s) (λ p. safe_path-absolute v s)))
