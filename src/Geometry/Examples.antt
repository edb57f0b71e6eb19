-- ===== src/Geometry/Examples.antt =====
-- The zero roots of a small tree, from the table and from the recurrence.
use rs_core.Toy.{toy_field}
