-- ===== src/Dname/Name/Tests.antt =====
-- Runs over the names `b.a.` and `a.`, and the theorems at them.
use nsd_old.Base.{
  after, ℕ, ◌+◌, ◌≡◌, ◌↔◌, refl, Bool, true, false, List, [], ◌∷◌, ◌++◌, done, arith,
}
use nsd_old.Dname.Name.{
  Name, at, dname_label, label_length, memcmp, label_compare, compare_at, compare_loop,
  dname_compare, dname_is_subdomain, match_loop, dname_label_match_count,
}
use nsd_old.Dname.Name.Labels.{Labels, IsName}
use nsd_old.Dname.Name.Order.{name_order, dname_compare-name_order}
use nsd_old.Dname.Name.Common.{
  InCommon, dname_is_subdomain-continues, dname_label_match_count-InCommon,
}

abbrev ba : Name
ba = record {
  name_size = 5;
  label_count = 3;
  label_offsets = 4 ∷ 2 ∷ 0 ∷ [];
  octets = 1 ∷ b'b' ∷ 1 ∷ b'a' ∷ 0 ∷ [];
}

abbrev a : Name
a = record {
  name_size = 3;
  label_count = 2;
  label_offsets = 2 ∷ 0 ∷ [];
  octets = 1 ∷ b'a' ∷ 0 ∷ [];
}

abbrev la : List ℕ
la = b'a' ∷ []

abbrev lb : List ℕ
lb = b'b' ∷ []

a-IsName : IsName a (la ∷ [])
a-IsName =
    Labels.one_more {i = 1} {x = la}
      (record {
        counted = omega arith;
        listed = omega arith;
        inside = omega arith;
        normal = refl;
        stands = (omega arith, refl, (omega arith, refl, tt));
      })
      (Labels.no_more refl)

ba-IsName : IsName ba (la ∷ lb ∷ [])
ba-IsName =
    Labels.one_more {i = 1} {x = la}
      (record {
        counted = omega arith;
        listed = omega arith;
        inside = omega arith;
        normal = refl;
        stands = (omega arith, refl, (omega arith, refl, tt));
      })
      (Labels.one_more {i = 2} {x = lb}
        (record {
          counted = omega arith;
          listed = omega arith;
          inside = omega arith;
          normal = refl;
          stands = (omega arith, refl, (omega arith, refl, tt));
        })
        (Labels.no_more refl))

compared : dname_compare false ba a ≡ done after
unfolding dname_compare compare_loop compare_at dname_label label_compare label_length memcmp at
compared = refl

counted : dname_label_match_count ba a ≡ done 2
unfolding dname_label_match_count match_loop compare_at dname_label label_compare label_length
    memcmp at
counted = refl

dname_compare-name_order_example :
    dname_compare false ba a ≡ done (name_order (la ∷ lb ∷ []) (la ∷ []))
dname_compare-name_order_example =
    dname_compare-name_order false {left = ba} {right = a} (λ h. cc h) ba-IsName a-IsName

dname_is_subdomain-continues_example :
    (b : Bool) × (dname_is_subdomain ba a ≡ done b)
    × ((b ≡ true) ↔ ((zs : List (List ℕ)) × (la ∷ lb ∷ [] ≡ (la ∷ []) ++ zs)))
dname_is_subdomain-continues_example = dname_is_subdomain-continues ba-IsName a-IsName

dname_label_match_count-InCommon_example :
    (count : ℕ) × (dname_label_match_count ba a ≡ done (1 + count))
    × InCommon count (la ∷ lb ∷ []) (la ∷ [])
dname_label_match_count-InCommon_example = dname_label_match_count-InCommon ba-IsName a-IsName
