-- ===== src/Emitter/OpenEnded.antt =====
-- The flag `openEnded` behind the hints of a block scalar, in internal/emitter/write.go.
use yaml.Common.{
  ◌≡◌, refl, sym, ap, ◌∙◌, Bool, true, false, Option, none, some, [], ◌∷◌, Bytes, ◌%◌, ◌+◌,
}
use yaml.Chars.{is_break, is_space, ◌||?◌}
use yaml.Emitter.State.{Emitter, ok, when, checked}
use yaml.Emitter.Output.{write_all}
use yaml.Emitter.Write.{separate, write_indicator}
use yaml.Emitter.Write.Block.{
  Chomp, strip, clip, keep, chomp, write_chomp, write_block_scalar_hints,
}
use yaml.Emitter.Bind.{>>=-eq-ok, ok-injective}

write_indicator-open_ended :
    (i : Bytes) (a b c : Bool) (e e' : Emitter)
    → write_indicator i a b c e ≡ ok tt e'
    → e'.open_ended ≡ false
unfolding write_indicator
write_indicator-open_ended i a b c e e' h =
    let (_, e₁, _, h₁) = >>=-eq-ok (separate a) _ e h in
    let (_, e₂, _, h₂) = >>=-eq-ok (write_all i) _ e₁ h₁ in
    ap (λ (x : Emitter). x.open_ended) (sym (ok-injective h₂))

-- Reading an option changes nothing.
checked_open_ended :
    {A : Type 0} (o : Option A) {a : A} (e : Emitter) {e' : Emitter}
    → checked o e ≡ ok a e'
    → e.open_ended ≡ false
    → e'.open_ended ≡ false
checked_open_ended none e h p = cc
checked_open_ended (some a) e h p = ap (λ (x : Emitter). x.open_ended) (sym (ok-injective h)) ∙ p

write_chomp-open_ended :
    (hint : Chomp) (e e' : Emitter)
    → e.open_ended ≡ false
    → write_chomp hint e ≡ ok tt e'
    → e'.open_ended ≡ false
unfolding write_chomp
write_chomp-open_ended strip e e' o h =
    write_indicator-open_ended (b'-' ∷ []) false false false e e' h
write_chomp-open_ended clip e e' o h = ap (λ (x : Emitter). x.open_ended) (sym (ok-injective h)) ∙ o
write_chomp-open_ended keep e e' o h =
    write_indicator-open_ended (b'+' ∷ []) false false false (record e { open_ended = true }) e' h

-- Whatever the value, `openEnded` is false behind the hints of a block scalar: the mark that the hint
-- `+` sets is gone, since the indicator is written after it and clears it.
pub write_block_scalar_hints-open_ended :
    (value : Bytes) (e e' : Emitter)
    → write_block_scalar_hints value e ≡ ok tt e'
    → e'.open_ended ≡ false
unfolding write_block_scalar_hints
write_block_scalar_hints-open_ended value e e' h =
    let (hinted, e₁, _, h₁) = >>=-eq-ok (checked (is_space value 0 ||? is_break value 0)) _ e h in
    let (_, e₂, _, h₂) =
      >>=-eq-ok (when hinted (write_indicator (((b'0' + e₁.indent) % 256) ∷ []) false false false))
        _ e₁ h₁ in
    let (hint, e₃, c, h₃) =
      >>=-eq-ok (checked (chomp value)) _ (record e₂ { open_ended = false }) h₂ in
    write_chomp-open_ended hint e₃ e'
      (checked_open_ended (chomp value) (record e₂ { open_ended = false }) c refl) h₃
