-- ===== src/Expression/Tests.antt =====
-- Small expressions.
use greensql_fw.Base.{true, Bytes, [], ◌∷◌, codes, length, ◌≡◌, ◌↔◌, ◌⊎◌, refl}
use greensql_fw.Expression.{Expression, new_expression, mem, comp}
use greensql_fw.Expression.Compare.{nodup, comp_iff}

-- `id + 1` and `id`.
abbrev sum : Expression
sum = record new_expression { fields = codes "id" ∷ []; has_const = true }

abbrev field : Expression
field = record new_expression { fields = codes "id" ∷ [] }

comp_iff_example : (comp sum field ≡ true) ↔ (
    ((k : Bytes) → mem k sum.fields ≡ mem k field.fields)
    × ((length sum.fields ≡ 0) ⊎ (sum.has_const ≡ field.has_const)))
unfolding nodup mem
comp_iff_example = comp_iff sum field refl refl
