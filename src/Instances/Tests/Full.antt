-- ===== src/Instances/Tests/Full.antt =====
-- A table with a row for each address of the range.
use foxplay_game.Common.{
  ℕ, List, [], ◌∷◌, some, ◌≡◌, refl, sym, ap, false, zero, suc, ◌<◌, ◌≤◌, String, arith, str_eq,
  eq_iff, Bool-cases, inl, inr, length, All, codes, ◌+◌,
}
use foxplay_game.Models.{parse_instance_create, is_function_name, is_ssh_public_key}
use foxplay_game.Server.{InstanceRow, World, ok, fail}
use foxplay_game.Instances.{new_row, post_instance}
use foxplay_game.Instances.Table.{guest_address, conflicts}
use foxplay_game.Instances.Invariant.{IsValid}
use foxplay_game.Instances.Create.{post_instance-full}
use foxplay_game.Instances.Tests.{fetch, parse, zod, empty, body, box, id}

-- a text of so many letters
many_letters : ℕ → String
many_letters zero = ""
many_letters (suc n) = String.◌∷◌ "a" (many_letters n)

-- a table of so many deleted rows
many_rows : ℕ → List InstanceRow
many_rows zero = []
many_rows (suc n) =
    record (new_row (many_letters n) 7 box (n + 40000, n + 2)) { deleted_at = some 8 } ∷ many_rows n

length-many_letters : (n : ℕ) → length (codes (many_letters n)) ≡ n
unfolding many_letters
length-many_letters zero = refl
length-many_letters (suc n) = ap suc (length-many_letters n)

length-many_rows : (n : ℕ) → length (many_rows n) ≡ n
unfolding many_rows
length-many_rows zero = refl
length-many_rows (suc n) = ap suc (length-many_rows n)

many_letters-apart : (n m : ℕ) → m < n → str_eq (many_letters n) (many_letters m) ≡ false
many_letters-apart n m h = elim (Bool-cases (str_eq (many_letters n) (many_letters m))) [
  | inl e ↦
      let same = ap (λ s. length (codes s)) ((eq_iff _ _).0 e) in
      absurd (omega (arith, same, length-many_letters n, length-many_letters m))
  | inr e ↦ e
]

many_rows-apart :
    (n m : ℕ) (r : InstanceRow)
    → m ≤ n
    → r.id ≡ many_letters n
    → r.deleted_at ≡ some 8
    → All (λ q. conflicts r q ≡ false) (many_rows m)
unfolding many_rows conflicts
many_rows-apart n zero r h e d = tt
many_rows-apart n (suc m) r h e d =
    (rw (e, d, many_letters-apart n m (omega arith)) refl, many_rows-apart n m r (omega arith) e d)

many_rows-IsValid : (n : ℕ) → n ≤ 253 → IsValid (many_rows n)
unfolding many_rows
many_rows-IsValid zero h = tt
many_rows-IsValid (suc n) h = (
  record {
    in_range = omega (arith, length-many_rows n);
    address = ap (λ k. some (guest_address (k + 2))) (sym (length-many_rows n));
    port = ap (λ k. some (k + 40000)) (sym (length-many_rows n));
  },
  many_rows-apart n n _ (omega arith) refl refl,
  many_rows-IsValid n (omega arith),
)

abbrev full : World (Unit {0})
full = record empty { instances = many_rows 253 }

post_instance-full_example :
    let (r, w') = post_instance fetch parse zod 9 id body full in
    (r ≡ ok (fail 507 "address space full")) × (w'.instances ≡ full.instances)
unfolding parse_instance_create is_function_name is_ssh_public_key
post_instance-full_example =
    post_instance-full fetch parse zod 9 id body box full (many_rows-IsValid 253 (omega arith))
      (omega (arith, length-many_rows 253)) refl refl
