-- ===== src/Encode/Region/Bounds.antt =====
-- src/encode/private/encoder.cpp: what `ResolveRegion` may give.
use native.Mathlib.Nat.{add-mul, mul-le-mul_right}
use klip.Base.{ℕ, ◌*◌, ◌+◌, ◌%◌, ◌^◌, ◌<◌, ◌≤◌, ◌≡◌, arith}
use klip.Recorder.State.{Region}
use klip.Encode.Region.{bounded_region, resolve_region, read_offset}

-- The region ends within the frame.
abbrev pub IsWithin : Region → ℕ → ℕ → Type 0
IsWithin g width height = (g.x + g.width ≤ width) × (g.y + g.height ≤ height)

-- 4:2:0 chroma has a sample for each pair of pixels.
abbrev pub IsEven : Region → Type 0
IsEven g = (g.x % 2 ≡ 0) × (g.y % 2 ≡ 0) × (g.width % 2 ≡ 0) × (g.height % 2 ≡ 0)

-- Each number is that of the other region, or one less.
abbrev pub IsNear : Region → Region → Type 0
IsNear g h =
    ((g.x ≤ h.x) × (h.x ≤ g.x + 1) × (g.y ≤ h.y) × (h.y ≤ g.y + 1))
    × ((g.width ≤ h.width)
        × (h.width ≤ g.width + 1)
        × (g.height ≤ h.height)
        × (h.height ≤ g.height + 1))

bounded_region-IsWithin :
    (g : Region) (width height : ℕ)
    → g.x + g.width < 2 ^ 32
    → g.y + g.height < 2 ^ 32
    → IsWithin (bounded_region g width height) width height
unfolding bounded_region
bounded_region-IsWithin g width height h k = ground arith

-- Where the picked region's ends fit 32 bits, the region encoded lies within the frame, starts and
-- ends on even pixels, and is within a pixel of the region that the picked one bounds to.
pub resolve_region-IsWithin :
    (g : Region) (width height : ℕ)
    → g.x + g.width < 2 ^ 32
    → g.y + g.height < 2 ^ 32
    → IsWithin (resolve_region g width height) width height
      × IsEven (resolve_region g width height)
      × IsNear (resolve_region g width height) (bounded_region g width height)
unfolding resolve_region
resolve_region-IsWithin g width height h k =
    let (a, b) = bounded_region-IsWithin g width height h k in
    ((omega arith, omega arith), (omega arith, omega arith, omega arith, omega arith), ground arith)

row-le :
    (y i stride height : ℕ) → y + i < height → y * stride + i * stride + stride ≤ height * stride
row-le y i stride height h =
    let sum = add-mul (y + i) 1 stride in
    let parts = add-mul y i stride in
    let most : (y + i + 1) * stride ≤ height * stride = mul-le-mul_right stride (omega arith) in
    omega arith

-- Where the picked region's ends fit 32 bits, the frame's stride holds a row of four-byte pixels and
-- the frame has the size that the region was resolved for, the rows that the converter reads of it
-- end within its memory.
pub read_offset-resolve_region :
    (g : Region) (width height stride row : ℕ)
    → g.x + g.width < 2 ^ 32
    → g.y + g.height < 2 ^ 32
    → width * 4 ≤ stride
    → row < (resolve_region g width height).height
    → read_offset (resolve_region g width height) stride
        + row * stride
        + (resolve_region g width height).width * 4
      ≤ height * stride
unfolding read_offset
read_offset-resolve_region g width height stride row h k enough last =
    let e = resolve_region g width height in
    let within = (resolve_region-IsWithin g width height h k).0 in
    let a = within.0 in
    let b = within.1 in let most = row-le e.y row stride height (omega arith) in omega arith
