-- ===== src/Huffman/Tree.antt =====
-- The tree of the code that encode_generated.cpp lists: the two ways on from each inner node. A
-- node has the number of the state of the decoder that stands for it.
use bnl.Prelude.{ℕ, List, [], ◌∷◌, get_or, Bool, if◌then◌else◌}

pub data Child : Type 0 where
  leaf : (byte : ℕ) → Child
  inner : (state : ℕ) → Child

children : List (Child × Child)
children =
    (inner 1, inner 22)
    ∷ (inner 2, inner 9)
    ∷ (inner 3, inner 6)
    ∷ (inner 4, inner 5)
    ∷ (leaf 48, leaf 49)
    ∷ (leaf 50, leaf 97)
    ∷ (inner 7, inner 8)
    ∷ (leaf 99, leaf 101)
    ∷ (leaf 105, leaf 111)
    ∷ (inner 10, inner 15)
    ∷ (inner 11, inner 12)
    ∷ (leaf 115, leaf 116)
    ∷ (inner 13, inner 14)
    ∷ (leaf 32, leaf 37)
    ∷ (leaf 45, leaf 46)
    ∷ (inner 16, inner 19)
    ∷ (inner 17, inner 18)
    ∷ (leaf 47, leaf 51)
    ∷ (leaf 52, leaf 53)
    ∷ (inner 20, inner 21)
    ∷ (leaf 54, leaf 55)
    ∷ (leaf 56, leaf 57)
    ∷ (inner 23, inner 40)
    ∷ (inner 24, inner 31)
    ∷ (inner 25, inner 28)
    ∷ (inner 26, inner 27)
    ∷ (leaf 61, leaf 65)
    ∷ (leaf 95, leaf 98)
    ∷ (inner 29, inner 30)
    ∷ (leaf 100, leaf 102)
    ∷ (leaf 103, leaf 104)
    ∷ (inner 32, inner 35)
    ∷ (inner 33, inner 34)
    ∷ (leaf 108, leaf 109)
    ∷ (leaf 110, leaf 112)
    ∷ (inner 36, inner 37)
    ∷ (leaf 114, leaf 117)
    ∷ (inner 38, inner 39)
    ∷ (leaf 58, leaf 66)
    ∷ (leaf 67, leaf 68)
    ∷ (inner 41, inner 56)
    ∷ (inner 42, inner 49)
    ∷ (inner 43, inner 46)
    ∷ (inner 44, inner 45)
    ∷ (leaf 69, leaf 70)
    ∷ (leaf 71, leaf 72)
    ∷ (inner 47, inner 48)
    ∷ (leaf 73, leaf 74)
    ∷ (leaf 75, leaf 76)
    ∷ (inner 50, inner 53)
    ∷ (inner 51, inner 52)
    ∷ (leaf 77, leaf 78)
    ∷ (leaf 79, leaf 80)
    ∷ (inner 54, inner 55)
    ∷ (leaf 81, leaf 82)
    ∷ (leaf 83, leaf 84)
    ∷ (inner 57, inner 64)
    ∷ (inner 58, inner 61)
    ∷ (inner 59, inner 60)
    ∷ (leaf 85, leaf 86)
    ∷ (leaf 87, leaf 89)
    ∷ (inner 62, inner 63)
    ∷ (leaf 106, leaf 107)
    ∷ (leaf 113, leaf 118)
    ∷ (inner 65, inner 68)
    ∷ (inner 66, inner 67)
    ∷ (leaf 119, leaf 120)
    ∷ (leaf 121, leaf 122)
    ∷ (inner 69, inner 72)
    ∷ (inner 70, inner 71)
    ∷ (leaf 38, leaf 42)
    ∷ (leaf 44, leaf 59)
    ∷ (inner 73, inner 74)
    ∷ (leaf 88, leaf 90)
    ∷ (inner 75, inner 78)
    ∷ (inner 76, inner 77)
    ∷ (leaf 33, leaf 34)
    ∷ (leaf 40, leaf 41)
    ∷ (inner 79, inner 81)
    ∷ (leaf 63, inner 80)
    ∷ (leaf 39, leaf 43)
    ∷ (inner 82, inner 84)
    ∷ (leaf 124, inner 83)
    ∷ (leaf 35, leaf 62)
    ∷ (inner 85, inner 88)
    ∷ (inner 86, inner 87)
    ∷ (leaf 0, leaf 36)
    ∷ (leaf 64, leaf 91)
    ∷ (inner 89, inner 90)
    ∷ (leaf 93, leaf 126)
    ∷ (inner 91, inner 92)
    ∷ (leaf 94, leaf 125)
    ∷ (inner 93, inner 94)
    ∷ (leaf 60, leaf 96)
    ∷ (leaf 123, inner 95)
    ∷ (inner 96, inner 110)
    ∷ (inner 97, inner 101)
    ∷ (inner 98, inner 99)
    ∷ (leaf 92, leaf 195)
    ∷ (leaf 208, inner 100)
    ∷ (leaf 128, leaf 130)
    ∷ (inner 102, inner 105)
    ∷ (inner 103, inner 104)
    ∷ (leaf 131, leaf 162)
    ∷ (leaf 184, leaf 194)
    ∷ (inner 106, inner 107)
    ∷ (leaf 224, leaf 226)
    ∷ (inner 108, inner 109)
    ∷ (leaf 153, leaf 161)
    ∷ (leaf 167, leaf 172)
    ∷ (inner 111, inner 133)
    ∷ (inner 112, inner 119)
    ∷ (inner 113, inner 116)
    ∷ (inner 114, inner 115)
    ∷ (leaf 176, leaf 177)
    ∷ (leaf 179, leaf 209)
    ∷ (inner 117, inner 118)
    ∷ (leaf 216, leaf 217)
    ∷ (leaf 227, leaf 229)
    ∷ (inner 120, inner 126)
    ∷ (inner 121, inner 123)
    ∷ (leaf 230, inner 122)
    ∷ (leaf 129, leaf 132)
    ∷ (inner 124, inner 125)
    ∷ (leaf 133, leaf 134)
    ∷ (leaf 136, leaf 146)
    ∷ (inner 127, inner 130)
    ∷ (inner 128, inner 129)
    ∷ (leaf 154, leaf 156)
    ∷ (leaf 160, leaf 163)
    ∷ (inner 131, inner 132)
    ∷ (leaf 164, leaf 169)
    ∷ (leaf 170, leaf 173)
    ∷ (inner 134, inner 153)
    ∷ (inner 135, inner 142)
    ∷ (inner 136, inner 139)
    ∷ (inner 137, inner 138)
    ∷ (leaf 178, leaf 181)
    ∷ (leaf 185, leaf 186)
    ∷ (inner 140, inner 141)
    ∷ (leaf 187, leaf 189)
    ∷ (leaf 190, leaf 196)
    ∷ (inner 143, inner 146)
    ∷ (inner 144, inner 145)
    ∷ (leaf 198, leaf 228)
    ∷ (leaf 232, leaf 233)
    ∷ (inner 147, inner 150)
    ∷ (inner 148, inner 149)
    ∷ (leaf 1, leaf 135)
    ∷ (leaf 137, leaf 138)
    ∷ (inner 151, inner 152)
    ∷ (leaf 139, leaf 140)
    ∷ (leaf 141, leaf 143)
    ∷ (inner 154, inner 169)
    ∷ (inner 155, inner 162)
    ∷ (inner 156, inner 159)
    ∷ (inner 157, inner 158)
    ∷ (leaf 147, leaf 149)
    ∷ (leaf 150, leaf 151)
    ∷ (inner 160, inner 161)
    ∷ (leaf 152, leaf 155)
    ∷ (leaf 157, leaf 158)
    ∷ (inner 163, inner 166)
    ∷ (inner 164, inner 165)
    ∷ (leaf 165, leaf 166)
    ∷ (leaf 168, leaf 174)
    ∷ (inner 167, inner 168)
    ∷ (leaf 175, leaf 180)
    ∷ (leaf 182, leaf 183)
    ∷ (inner 170, inner 180)
    ∷ (inner 171, inner 174)
    ∷ (inner 172, inner 173)
    ∷ (leaf 188, leaf 191)
    ∷ (leaf 197, leaf 231)
    ∷ (inner 175, inner 177)
    ∷ (leaf 239, inner 176)
    ∷ (leaf 9, leaf 142)
    ∷ (inner 178, inner 179)
    ∷ (leaf 144, leaf 145)
    ∷ (leaf 148, leaf 159)
    ∷ (inner 181, inner 190)
    ∷ (inner 182, inner 185)
    ∷ (inner 183, inner 184)
    ∷ (leaf 171, leaf 206)
    ∷ (leaf 215, leaf 225)
    ∷ (inner 186, inner 187)
    ∷ (leaf 236, leaf 237)
    ∷ (inner 188, inner 189)
    ∷ (leaf 199, leaf 207)
    ∷ (leaf 234, leaf 235)
    ∷ (inner 191, inner 207)
    ∷ (inner 192, inner 199)
    ∷ (inner 193, inner 196)
    ∷ (inner 194, inner 195)
    ∷ (leaf 192, leaf 193)
    ∷ (leaf 200, leaf 201)
    ∷ (inner 197, inner 198)
    ∷ (leaf 202, leaf 205)
    ∷ (leaf 210, leaf 213)
    ∷ (inner 200, inner 203)
    ∷ (inner 201, inner 202)
    ∷ (leaf 218, leaf 219)
    ∷ (leaf 238, leaf 240)
    ∷ (inner 204, inner 205)
    ∷ (leaf 242, leaf 243)
    ∷ (leaf 255, inner 206)
    ∷ (leaf 203, leaf 204)
    ∷ (inner 208, inner 223)
    ∷ (inner 209, inner 216)
    ∷ (inner 210, inner 213)
    ∷ (inner 211, inner 212)
    ∷ (leaf 211, leaf 212)
    ∷ (leaf 214, leaf 221)
    ∷ (inner 214, inner 215)
    ∷ (leaf 222, leaf 223)
    ∷ (leaf 241, leaf 244)
    ∷ (inner 217, inner 220)
    ∷ (inner 218, inner 219)
    ∷ (leaf 245, leaf 246)
    ∷ (leaf 247, leaf 248)
    ∷ (inner 221, inner 222)
    ∷ (leaf 250, leaf 251)
    ∷ (leaf 252, leaf 253)
    ∷ (inner 224, inner 238)
    ∷ (inner 225, inner 231)
    ∷ (inner 226, inner 228)
    ∷ (leaf 254, inner 227)
    ∷ (leaf 2, leaf 3)
    ∷ (inner 229, inner 230)
    ∷ (leaf 4, leaf 5)
    ∷ (leaf 6, leaf 7)
    ∷ (inner 232, inner 235)
    ∷ (inner 233, inner 234)
    ∷ (leaf 8, leaf 11)
    ∷ (leaf 12, leaf 14)
    ∷ (inner 236, inner 237)
    ∷ (leaf 15, leaf 16)
    ∷ (leaf 17, leaf 18)
    ∷ (inner 239, inner 246)
    ∷ (inner 240, inner 243)
    ∷ (inner 241, inner 242)
    ∷ (leaf 19, leaf 20)
    ∷ (leaf 21, leaf 23)
    ∷ (inner 244, inner 245)
    ∷ (leaf 24, leaf 25)
    ∷ (leaf 26, leaf 27)
    ∷ (inner 247, inner 250)
    ∷ (inner 248, inner 249)
    ∷ (leaf 28, leaf 29)
    ∷ (leaf 30, leaf 31)
    ∷ (inner 251, inner 252)
    ∷ (leaf 127, leaf 220)
    ∷ (leaf 249, inner 253)
    ∷ (inner 254, inner 255)
    ∷ (leaf 10, leaf 13)
    ∷ (leaf 22, leaf 256)
    ∷ []

unfoldable pub child_at : ℕ → Bool → Child
unfolding children
child_at state bit =
    let ways = get_or children state (inner 0, inner 0) in if bit then ways.1 else ways.0
