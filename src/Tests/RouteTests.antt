-- ===== src/Tests/RouteTests.antt =====
-- internal/route/route.go at concrete inputs.
use mathlib.Core.Path.{subst}
use vibepod.Base.{◌≤◌, true, false, some, [], ◌∷◌, ◌≡◌, refl, sym, ◌∙◌, inl, inr, arith}
use vibepod.Base.{Text, codes, text_eq, nat_eq, length, sort_by, In}
use vibepod.Filepath.{clean, join_path}
use vibepod.Strings.{has_prefix, trim_prefix, trim_suffix}
use vibepod.Route.{
  Rule, longer, sort_rules, new, under, rebase, dir_in, dir, first_under, owner_of, suggest,
  IsDistinct, SameRules, owner_of-new, owner_of-new_order, dir_identity,
}

abbrev rule : Text → Text → Text → Rule
rule prefix owner remote = record {
  prefix = prefix;
  owner = owner;
  remote_path = remote;
  exec_on = [];
}

abbrev wide : Rule
wide = rule (codes "/data") (codes "gpu03") (codes "/data")

abbrev deep : Rule
deep = rule (codes "/data/deep") (codes "gpu05") (codes "/srv/deep")

abbrev job : Text
job = codes "/data/deep/job"

under_deep : under job deep.prefix ≡ true
unfolding under clean has_prefix trim_suffix text_eq nat_eq
under_deep = refl

under_data : under deep.prefix wide.prefix ≡ true
unfolding under clean has_prefix trim_suffix text_eq nat_eq
under_data = refl

not_a_prefix_of_names : under (codes "/database") (codes "/data") ≡ false
unfolding under clean has_prefix trim_suffix text_eq nat_eq
not_a_prefix_of_names = refl

owner_test : owner_of (some (new [] (wide ∷ deep ∷ []))) job ≡ codes "gpu05"
unfolding owner_of new sort_rules longer first_under under clean has_prefix trim_suffix text_eq
    nat_eq sort_by
owner_test = refl

dir_test : dir (some (new [] (wide ∷ deep ∷ []))) job (codes "gpu05") ≡ codes "/srv/deep/job"
unfolding dir dir_in rebase new sort_rules longer under clean has_prefix trim_suffix trim_prefix
    text_eq nat_eq sort_by join_path
dir_test = refl

owner_of-new_example :
    (r : Rule) × In r (wide ∷ deep ∷ [])
    × (under job r.prefix ≡ true)
    × (length deep.prefix ≤ length r.prefix)
    × (owner_of (some (new [] (wide ∷ deep ∷ []))) job ≡ r.owner)
owner_of-new_example = owner_of-new [] job (wide ∷ deep ∷ []) deep (inr (inl refl)) under_deep

wide_clean : clean wide.prefix ≡ wide.prefix
unfolding clean text_eq nat_eq
wide_clean = refl

deep_clean : clean deep.prefix ≡ deep.prefix
unfolding clean text_eq nat_eq
deep_clean = refl

one_of_two :
    (q r : Rule) → In q (wide ∷ deep ∷ []) → In r (wide ∷ deep ∷ []) → q.prefix ≡ r.prefix → q ≡ r
one_of_two q r (inl a) (inl b) e = a ∙ sym b
one_of_two q r (inl a) (inr (inl b)) e = absurd (ground arith)
one_of_two q r (inr (inl a)) (inl b) e = absurd (ground arith)
one_of_two q r (inr (inl a)) (inr (inl b)) e = a ∙ sym b
one_of_two q r (inr (inr a)) j e = absurd a
one_of_two q r i (inr (inr b)) e = absurd b

both_clean : (q : Rule) → In q (wide ∷ deep ∷ []) → clean q.prefix ≡ q.prefix
both_clean q (inl a) = subst (λ (x : Rule). clean x.prefix ≡ x.prefix) (sym a) wide_clean
both_clean q (inr (inl a)) = subst (λ (x : Rule). clean x.prefix ≡ x.prefix) (sym a) deep_clean
both_clean q (inr (inr a)) = absurd a

distinct : IsDistinct (wide ∷ deep ∷ [])
distinct = record { cleaned = both_clean; apart = one_of_two }

swapped : SameRules (wide ∷ deep ∷ []) (deep ∷ wide ∷ [])
swapped q = ground arith

owner_of-new_order_run :
    (owner_of (some (new [] (wide ∷ deep ∷ []))) job
      ≡ owner_of (some (new [] (deep ∷ wide ∷ []))) job)
    × (suggest (some (new [] (wide ∷ deep ∷ []))) job
        ≡ suggest (some (new [] (deep ∷ wide ∷ []))) job)
owner_of-new_order_run =
    owner_of-new_order [] job (wide ∷ deep ∷ []) (deep ∷ wide ∷ []) swapped distinct

wide_dir : dir (some (new [] (wide ∷ []))) (codes "/data/x") (codes "gpu03") ≡ codes "/data/x"
unfolding new sort_rules longer sort_by
wide_dir = dir_identity (new [] (wide ∷ [])) (codes "/data/x") (codes "gpu03") (inr refl, tt)
