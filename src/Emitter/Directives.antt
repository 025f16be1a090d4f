-- ===== src/Emitter/Directives.antt =====
-- The tag directives of a document: appendTagDirective of internal/emitter/emitter.go, and what
-- emitDocumentStartEvent of internal/emitter/emit.go does with it.
use yaml.Common.{
  ℕ, ◌≡◌, refl, sym, Bool, true, false, not, ◌&&◌, ◌||◌, Option, List, [], ◌∷◌, ◌++◌, Bytes,
  bytes_eq, ◌==◌, Bool-cases, All, subst, inl, inr, arith,
}
use yaml.Event.{Event, TagDirective, VersionDirective, default_tag_directives}
use yaml.Emitter.State.{Emitter, ok}
use yaml.Emitter.Output.{has_handle, append_tag_directive}
use yaml.Emitter.Analyze.{analyze_tag_directive}
use yaml.Emitter.Document.{
  add_tag_directives, add_default_directives, check_version, read_directives,
}
use yaml.Emitter.Bind.{>>=-eq-ok, ok-injective}

-- No two directives have the same handle.
abbrev distinct : List TagDirective → Bool
distinct [] = true
distinct (d ∷ ds) = not (has_handle d.handle ds) && distinct ds

==_comm : (a b : ℕ) → (a == b) ≡ (b == a)
==_comm a b = ground arith

bytes_eq_comm : (a b : Bytes) → bytes_eq a b ≡ bytes_eq b a
bytes_eq_comm [] [] = refl
bytes_eq_comm [] (y ∷ b) = refl
bytes_eq_comm (x ∷ a) [] = refl
bytes_eq_comm (x ∷ a) (y ∷ b) = rw (==_comm x y, bytes_eq_comm a b) refl

bytes_eq_refl : (a : Bytes) → bytes_eq a a ≡ true
bytes_eq_refl [] = refl
bytes_eq_refl (x ∷ a) = ground (arith, bytes_eq_refl a)

has_handle-append :
    (h : Bytes) (ds es : List TagDirective)
    → has_handle h (ds ++ es) ≡ (has_handle h ds || has_handle h es)
unfolding has_handle
has_handle-append h [] es = refl
has_handle-append h (d ∷ ds) es = ground (arith, has_handle-append h ds es)

distinct-append :
    (ds : List TagDirective) (d : TagDirective)
    → distinct ds ≡ true
    → has_handle d.handle ds ≡ false
    → distinct (ds ++ d ∷ []) ≡ true
unfolding has_handle
distinct-append [] d p q = refl
distinct-append (x ∷ ds) d p q =
    let rest = distinct-append ds d (ground arith) (ground arith) in
    ground (arith, rest, has_handle-append x.handle ds (d ∷ []), bytes_eq_comm x.handle d.handle)

-- The handles of the directives are distinct, and those of the earlier state are among them.
pub record Grown (e e' : Emitter) : Type 0 where
  pub unique : distinct e'.tag_directives ≡ true
  pub kept :
      (h : Bytes) → has_handle h e.tag_directives ≡ true → has_handle h e'.tag_directives ≡ true

Grown-trans : {e e₁ e₂ : Emitter} → Grown e e₁ → Grown e₁ e₂ → Grown e e₂
Grown-trans p q = record { unique = q.unique; kept = λ h x. q.kept h (p.kept h x) }

-- The state `e'` has grown from `e` and holds the handle.
abbrev GrownBy : TagDirective → Emitter → Emitter → Type 0
GrownBy d e e' = Grown e e' × (has_handle d.handle e'.tag_directives ≡ true)

abbrev added : TagDirective → Emitter → Emitter
added d e = record e { tag_directives = e.tag_directives ++ d ∷ [] }

GrownBy-added :
    (d : TagDirective) (e : Emitter)
    → distinct e.tag_directives ≡ true
    → has_handle d.handle e.tag_directives ≡ false
    → GrownBy d e (added d e)
unfolding has_handle
GrownBy-added d e p q =
    let ds = e.tag_directives in
    (
      record {
        unique = distinct-append ds d p q;
        kept = λ h x. rw (has_handle-append h ds (d ∷ []), x) refl;
      },
      rw (has_handle-append d.handle ds (d ∷ []), q, bytes_eq_refl d.handle) refl,
    )

append_tag_directive-GrownBy :
    (d : TagDirective) (dup : Bool) (e e' : Emitter)
    → distinct e.tag_directives ≡ true
    → append_tag_directive d dup e ≡ ok tt e'
    → GrownBy d e e'
unfolding append_tag_directive
append_tag_directive-GrownBy d dup e e' p h =
    elim (Bool-cases (has_handle d.handle e.tag_directives)) [
      | inl has ↦ elim (Bool-cases dup) [
        | inl y ↦
            subst (GrownBy d e) (ok-injective (rw (has, y) at h))
              (record { unique = p; kept = λ _ x. x }, has)
        | inr n ↦ let q = rw (has, n) at h in cc
      ]
      | inr lacks ↦ subst (GrownBy d e) (ok-injective (rw lacks at h)) (GrownBy-added d e p lacks)
    ]

analyze_tag_directive-unchanged :
    (d : TagDirective) (e e' : Emitter) → analyze_tag_directive d e ≡ ok tt e' → e ≡ e'
unfolding analyze_tag_directive
analyze_tag_directive-unchanged d e e' h = ground arith

-- The state has grown, and holds the handles of all of the directives.
pub record GrownByAll (ds : List TagDirective) (e e' : Emitter) : Type 0 where
  pub grown : Grown e e'
  pub held : All (λ d. has_handle d.handle e'.tag_directives ≡ true) ds

GrownByAll-cons :
    {d : TagDirective} {ds : List TagDirective} {e e₁ e₂ : Emitter}
    → GrownBy d e e₁
    → GrownByAll ds e₁ e₂
    → GrownByAll (d ∷ ds) e e₂
GrownByAll-cons {d} (g, has) all = record {
  grown = Grown-trans g all.grown;
  held = (all.grown.kept d.handle has, all.held);
}

GrownByAll-cons_held :
    {d : TagDirective} {ds : List TagDirective} {e e' : Emitter}
    → has_handle d.handle e'.tag_directives ≡ true
    → GrownByAll ds e e'
    → GrownByAll (d ∷ ds) e e'
GrownByAll-cons_held has all = record { grown = all.grown; held = (has, all.held) }

GrownByAll-nil : {e e' : Emitter} → distinct e.tag_directives ≡ true → e ≡ e' → GrownByAll [] e e'
GrownByAll-nil {e} p q =
    subst (GrownByAll [] e) q (record { grown = record { unique = p; kept = λ _ x. x }; held = tt })

GrownByAll-append :
    (ds : List TagDirective) {es : List TagDirective} {e e₁ e₂ : Emitter}
    → GrownByAll ds e e₁
    → GrownByAll es e₁ e₂
    → GrownByAll (ds ++ es) e e₂
GrownByAll-append [] p q = record { grown = Grown-trans p.grown q.grown; held = q.held }
GrownByAll-append (d ∷ ds) {es} {e} {e₁} p q =
    let tail_p : GrownByAll ds e e₁ = record { grown = p.grown; held = p.held.1 } in
    GrownByAll-cons_held (q.grown.kept d.handle p.held.0) (GrownByAll-append ds tail_p q)

add_tag_directives-GrownByAll :
    (ds : List TagDirective) (e e' : Emitter)
    → distinct e.tag_directives ≡ true
    → add_tag_directives ds e ≡ ok tt e'
    → GrownByAll ds e e'
unfolding add_tag_directives
add_tag_directives-GrownByAll [] e e' p h = GrownByAll-nil p (ok-injective h)
add_tag_directives-GrownByAll (d ∷ ds) e e' p h =
    let (_, e₁, analysed, h₁) = >>=-eq-ok (analyze_tag_directive d) _ e h in
    let same = analyze_tag_directive-unchanged d e e₁ analysed in
    let (_, e₂, appended, h₂) = >>=-eq-ok (append_tag_directive d false) _ e₁ h₁ in
    let one =
      append_tag_directive-GrownBy d false e e₂ p
        (subst (λ x. append_tag_directive d false x ≡ ok tt e₂) (sym same) appended) in
    GrownByAll-cons one (add_tag_directives-GrownByAll ds e₂ e' one.0.unique h₂)

add_default_directives-GrownByAll :
    (ds : List TagDirective) (e e' : Emitter)
    → distinct e.tag_directives ≡ true
    → add_default_directives ds e ≡ ok tt e'
    → GrownByAll ds e e'
unfolding add_default_directives
add_default_directives-GrownByAll [] e e' p h = GrownByAll-nil p (ok-injective h)
add_default_directives-GrownByAll (d ∷ ds) e e' p h =
    let (_, e₁, appended, h₁) = >>=-eq-ok (append_tag_directive d true) _ e h in
    let one = append_tag_directive-GrownBy d true e e₁ p appended in
    GrownByAll-cons one (add_default_directives-GrownByAll ds e₁ e' one.0.unique h₁)

check_version-unchanged :
    (v : Option VersionDirective) (e e' : Emitter) → check_version v e ≡ ok tt e' → e ≡ e'
unfolding check_version
check_version-unchanged v e e' h = ground arith

-- When the directives of a document start are read without an error, from a state in which no two
-- directives have the same handle, then that still holds, the handles of the event's directives and of
-- the default ones are there, and none has been lost.
pub read_directives-GrownByAll :
    (event : Event) (e e' : Emitter)
    → distinct e.tag_directives ≡ true
    → read_directives event e ≡ ok tt e'
    → GrownByAll (event.tag_directives ++ default_tag_directives) e e'
unfolding read_directives
read_directives-GrownByAll event e e' p h =
    let (_, e₁, checked, h₁) = >>=-eq-ok (check_version event.version_directive) _ e h in
    let same = check_version-unchanged event.version_directive e e₁ checked in
    let (_, e₂, given, h₂) = >>=-eq-ok (add_tag_directives event.tag_directives) _ e₁ h₁ in
    let first =
      add_tag_directives-GrownByAll event.tag_directives e e₂ p
        (subst (λ x. add_tag_directives event.tag_directives x ≡ ok tt e₂) (sym same) given) in
    let second =
      add_default_directives-GrownByAll default_tag_directives e₂ e' first.grown.unique h₂ in
    GrownByAll-append event.tag_directives first second
