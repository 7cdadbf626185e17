-- ===== src/Codec/Tags.antt =====
-- _tags.py: the tag bytes of the value layer.
use tessaridb_sdk_python.Prelude.{ℕ}

abbrev pub tag_none : ℕ
tag_none = 0x01

abbrev pub tag_null : ℕ
tag_null = 0x02

abbrev pub tag_bool : ℕ
tag_bool = 0x03

abbrev pub tag_number : ℕ
tag_number = 0x04

abbrev pub tag_string : ℕ
tag_string = 0x05

abbrev pub tag_bytes : ℕ
tag_bytes = 0x06

abbrev pub tag_duration : ℕ
tag_duration = 0x07

abbrev pub tag_datetime : ℕ
tag_datetime = 0x08

abbrev pub tag_uuid : ℕ
tag_uuid = 0x09

abbrev pub tag_table : ℕ
tag_table = 0x0a

abbrev pub tag_record : ℕ
tag_record = 0x0b

abbrev pub tag_array : ℕ
tag_array = 0x0c

abbrev pub tag_object : ℕ
tag_object = 0x0d

abbrev pub tag_range : ℕ
tag_range = 0x0e

abbrev pub tag_set : ℕ
tag_set = 0x0f

abbrev pub tag_geometry : ℕ
tag_geometry = 0x10

abbrev pub tag_regex : ℕ
tag_regex = 0x11

abbrev pub number_integer : ℕ
number_integer = 0x01

abbrev pub number_float : ℕ
number_float = 0x02

abbrev pub number_decimal : ℕ
number_decimal = 0x03

abbrev pub bound_unbounded : ℕ
bound_unbounded = 0x01

abbrev pub bound_included : ℕ
bound_included = 0x02

abbrev pub bound_excluded : ℕ
bound_excluded = 0x03

abbrev pub id_integer : ℕ
id_integer = 0x01

abbrev pub id_text : ℕ
id_text = 0x02

abbrev pub id_uuid : ℕ
id_uuid = 0x03

abbrev pub id_bytes : ℕ
id_bytes = 0x04

abbrev pub shape_point : ℕ
shape_point = 0x01

abbrev pub shape_line : ℕ
shape_line = 0x02

abbrev pub shape_polygon : ℕ
shape_polygon = 0x03

abbrev pub shape_multipoint : ℕ
shape_multipoint = 0x04

abbrev pub shape_multiline : ℕ
shape_multiline = 0x05

abbrev pub shape_multipolygon : ℕ
shape_multipolygon = 0x06

abbrev pub shape_collection : ℕ
shape_collection = 0x07

abbrev pub uuid_width : ℕ
uuid_width = 16
