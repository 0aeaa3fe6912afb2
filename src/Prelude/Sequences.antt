-- ===== src/Prelude/Sequences.antt =====
-- Python's list operations on the items of a JSON list.
use Prim.Native.Nat.{ℕ, zero, suc}
use mathlib.Core.Option.{Option, none, some}
use neuronium.Prelude.Value.{Value, Items, nil, cons}

-- `len(xs)`
unfoldable pub count_items : Items → ℕ
count_items nil = 0
count_items (cons v xs) = suc (count_items xs)

-- `xs[i]`, with `none` out of range
unfoldable pub item_at : ℕ → Items → Option Value
item_at i nil = none
item_at zero (cons v xs) = some v
item_at (suc i) (cons v xs) = item_at i xs

-- `xs[i] = w`, for an index in range
unfoldable pub set_item : ℕ → Value → Items → Items
set_item i w nil = nil
set_item zero w (cons v xs) = cons w xs
set_item (suc i) w (cons v xs) = cons v (set_item i w xs)

-- `xs.insert(i, w)`; beyond the end it appends
unfoldable pub insert_item : ℕ → Value → Items → Items
insert_item i w nil = cons w nil
insert_item zero w (cons v xs) = cons w (cons v xs)
insert_item (suc i) w (cons v xs) = cons v (insert_item i w xs)

-- `xs.append(w)`
unfoldable pub append_item : Value → Items → Items
append_item w nil = cons w nil
append_item w (cons v xs) = cons v (append_item w xs)

-- `xs.pop(i)`, for an index in range
unfoldable pub drop_item : ℕ → Items → Items
drop_item i nil = nil
drop_item zero (cons v xs) = xs
drop_item (suc i) (cons v xs) = cons v (drop_item i xs)
