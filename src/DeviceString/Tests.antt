-- ===== src/DeviceString/Tests.antt =====
-- A title with an accent, which takes the third form.
use bvault_app.Prelude.{◌≡◌, [], ◌∷◌, ◌++◌, All, arith, some}
use bvault_app.Text.{Text, IsScalar}
use bvault_app.DeviceString.{encode_string}
use bvault_app.DeviceString.RoundTrip.{decode_string, decode_string-encode_string}

abbrev title : Text
title = b'C' ∷ b'a' ∷ b'f' ∷ 0xE9 ∷ []

title_scalars : All IsScalar title
title_scalars = ground arith

decode_string-encode_string_example : decode_string (encode_string title ++ 1 ∷ 2 ∷ []) ≡ some title
decode_string-encode_string_example =
    decode_string-encode_string title (1 ∷ 2 ∷ []) title_scalars (omega arith)
