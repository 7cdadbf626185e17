-- ===== src/Codec/RoundTrip/Geometries.antt =====
-- Geometries are read back as they were written.
use tessaridb_sdk_python.Prelude.{
  ℕ, zero, suc, ◌<◌, ◌≡◌, refl, ap, List, [], ◌∷◌, arith, length, All, pos, subst,
}
use tessaridb_sdk_python.Value.{
  Position, Ring, Polygon, Shape, Shapes, point, line, polygon_shape, multi_point, multi_line,
  multi_polygon, collection, no_shapes, shape_then, shapes_of, IsPosition, IsRing, IsPolygon,
  IsShape, AreShapes,
}
use tessaridb_sdk_python.Bytes.Reads.{
  Reads, Reads-bind, Reads-map, Reads-tag, Reads-zero, Reads-repeat_nil, Reads-repeat_cons,
}
use tessaridb_sdk_python.Bytes.RoundTrip.{u32_length-Reads, double-Reads}
use tessaridb_sdk_python.Bytes.Writer.{Put, ◌⨾◌, u32}
use tessaridb_sdk_python.Bytes.Reader.{Get, repeat, pure, ◌>>=◌}
use tessaridb_sdk_python.Codec.Encode.{
  tag, put_position, put_each, put_counted, put_positions, put_polygon, put_shape, put_shapes,
  count_shapes,
}
use tessaridb_sdk_python.Codec.Decode.{counted, position, positions, polygon, get_shape, shape}

module _ {ℓ} {A : Type ℓ} {P : A → Type 0} {put : A → Put} {get : Get A} {n : ℕ} where
  each-Reads :
      ((a : A) → P a → Reads n (put a) get a)
      → (xs : List A) → All P xs
      → Reads n (put_each put xs) (repeat (length xs) get) xs
  unfolding put_each
  each-Reads r [] h = Reads-repeat_nil get
  each-Reads r (a ∷ rest) h = Reads-repeat_cons (length rest) (r a h.0) (each-Reads r rest h.1)

  counted-Reads :
      ((a : A) → P a → Reads n (put a) get a)
      → (xs : List A) → All P xs
      → Reads n (put_counted put xs) (counted get) xs
  unfolding put_counted counted
  counted-Reads r xs h = Reads-bind _ (u32_length-Reads (length xs)) (each-Reads r xs h)

module _ {n : ℕ} where
  position-Reads : (p : Position) → IsPosition p → Reads n (put_position p) position p
  unfolding put_position position
  position-Reads p h = Reads-bind _ (double-Reads p.lon h.0) (Reads-map _ (double-Reads p.lat h.1))

  positions-Reads : (ps : Ring) → IsRing ps → Reads n (put_positions ps) positions ps
  unfolding put_positions positions
  positions-Reads ps h = counted-Reads position-Reads ps h

  polygon-Reads : (p : Polygon) → IsPolygon p → Reads n (put_polygon p) polygon p
  unfolding put_polygon polygon
  polygon-Reads p h =
      Reads-bind _ (positions-Reads p.exterior h.0)
        (Reads-map _ (counted-Reads positions-Reads p.interiors h.1))

-- As `tagged` of the values.
tagged :
    (w : Put) (a : Shape) (t : ℕ)
    → t < 256
    → ((f : ℕ) → Reads f w (get_shape (shape f) t) a)
    → (f : ℕ) → Reads f (tag t ⨾ w) (shape f) a
tagged w a t lt r zero = Reads-zero w (shape 0) a t
tagged w a t lt r (suc f) = record {
  at = λ bs rest h le. unfold shape in (Reads-tag (get_shape (shape f)) t lt (r f)).at bs rest h le;
}

shapes_list : Shapes → List Shape
shapes_list no_shapes = []
shapes_list (shape_then s more) = s ∷ shapes_list more

shapes_of-shapes_list : (shapes : Shapes) → shapes_of (shapes_list shapes) ≡ shapes
unfolding shapes_of shapes_list
shapes_of-shapes_list no_shapes = refl
shapes_of-shapes_list (shape_then s more) = ap (shape_then s) (shapes_of-shapes_list more)

nested :
    {n : ℕ} (f : ℕ) (shapes : Shapes)
    → Reads n (put_shapes shapes) (repeat (count_shapes shapes) (shape f)) (shapes_list shapes)
    → Reads n
        (u32 (pos (count_shapes shapes)) ⨾ put_shapes shapes)
        (counted (shape f) >>= λ xs. pure (collection (shapes_of xs)))
        (collection shapes)
unfolding counted
nested {n} f shapes r =
    subst
      (λ x.
        Reads n (u32 (pos (count_shapes shapes)) ⨾ put_shapes shapes)
          (counted (shape f) >>= λ xs. pure (collection (shapes_of xs))) (collection x))
      (shapes_of-shapes_list shapes)
      (Reads-map (λ xs. collection (shapes_of xs))
        (Reads-bind _ (u32_length-Reads (count_shapes shapes)) r))

mutual
  unfolding put_shape get_shape IsShape shapes_list count_shapes counted

  shape_mutual-Reads : (s : Shape) → IsShape s → (f : ℕ) → Reads f (put_shape s) (shape f) s
  shape_mutual-Reads (point p) h =
      tagged _ _ 1 (omega arith) λ f. Reads-map point (position-Reads p h)
  shape_mutual-Reads (line ps) h =
      tagged _ _ 2 (omega arith) λ f. Reads-map line (positions-Reads ps h)
  shape_mutual-Reads (polygon_shape p) h =
      tagged _ _ 3 (omega arith) λ f. Reads-map polygon_shape (polygon-Reads p h)
  shape_mutual-Reads (multi_point ps) h =
      tagged _ _ 4 (omega arith) λ f. Reads-map multi_point (positions-Reads ps h)
  shape_mutual-Reads (multi_line lines) h =
      tagged _ _ 5 (omega arith) λ f. Reads-map multi_line (counted-Reads positions-Reads lines h)
  shape_mutual-Reads (multi_polygon ps) h =
      tagged _ _ 6 (omega arith) λ f. Reads-map multi_polygon (counted-Reads polygon-Reads ps h)
  shape_mutual-Reads (collection shapes) h =
      tagged _ _ 7 (omega arith) λ f. nested f shapes (shapes-Reads shapes h f)

  shapes-Reads :
      (shapes : Shapes)
      → AreShapes shapes
      → (f : ℕ)
      → Reads f (put_shapes shapes) (repeat (count_shapes shapes) (shape f)) (shapes_list shapes)
  shapes-Reads no_shapes h f = Reads-repeat_nil (shape f)
  shapes-Reads (shape_then s more) h f =
      Reads-repeat_cons (count_shapes more) (shape_mutual-Reads s h.0 f) (shapes-Reads more h.1 f)

pub shape-Reads : (s : Shape) → IsShape s → (f : ℕ) → Reads f (put_shape s) (shape f) s
shape-Reads s h f = shape_mutual-Reads s h f
