-- ===== src/Upgrade/Tests.antt =====
-- src/network/upgrade.rs at concrete inputs.
use v3_node.Base.{ℕ, ◌≡◌, refl, true, false, [], ◌∷◌, ◌++◌, ok, err, done}
use v3_node.Upgrade.{into_rlpx, decode}
use v3_node.Upgrade.Wire.{decode-layout}
use v3_node.Samples.Wire.{codec, codec-RlpLaws, extension}

-- The message of another BSC node: the id, a list, and in it the extension.
decode_nested :
    decode codec (0x0b ∷ 0xc2 ∷ 0xc1 ∷ 0x01 ∷ [])
    ≡ done (ok (record { extension = extension true }, []))
unfolding decode
decode_nested = refl

decode-layout_example :
    (x : ℕ) × (decode codec (into_rlpx codec (record { extension = extension false }))
      ≡ done (err x))
    × (decode codec (0x0b ∷ 0xc2 ∷ (codec.encode_extension (extension false) ++ []))
        ≡ done (ok (record { extension = extension false }, [])))
decode-layout_example =
    decode-layout codec codec-RlpLaws (record { extension = extension false }) 0xc2 []
