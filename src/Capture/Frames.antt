-- ===== src/Capture/Frames.antt =====
-- The frames of include/capture/FrameTypes.h, and how src/capture/PipeWireCapture.cpp fills them in
-- from a buffer of PipeWire. `size_t` has 64 bits.
use smooth_demon.Prelude.{ℕ, zero, suc, ◌-◌, ◌^◌, List, [], ◌∷◌, Option, min, length}
use smooth_demon.Prelude.Int.{ℤ, pos, negsuc}

pub data PixelFormat : Type 0 where
  bgra rgba bgrx rgbx unknown : PixelFormat

-- `spa_video_format`: the formats that the program names, or another.
pub data SpaVideoFormat : Type 0 where
  spa_bgra spa_rgba spa_bgrx spa_rgbx spa_nv12 spa_other : SpaVideoFormat

-- The constants of drm_fourcc.h that the program uses, or 0.
pub data DrmFormat : Type 0 where
  argb8888 xrgb8888 abgr8888 xbgr8888 no_drm_format : DrmFormat

unfoldable pub spa_to_pixel_format : SpaVideoFormat → PixelFormat
spa_to_pixel_format spa_bgra = bgra
spa_to_pixel_format spa_rgba = rgba
spa_to_pixel_format spa_bgrx = bgrx
spa_to_pixel_format spa_rgbx = rgbx
spa_to_pixel_format _ = unknown

unfoldable pub spa_to_drm_format : SpaVideoFormat → DrmFormat
spa_to_drm_format spa_bgra = argb8888
spa_to_drm_format spa_bgrx = xrgb8888
spa_to_drm_format spa_rgba = abgr8888
spa_to_drm_format spa_rgbx = xbgr8888
spa_to_drm_format _ = no_drm_format

-- `spa_video_info_raw`
pub record VideoInfo : Type 0 where
  pub format : SpaVideoFormat
  pub width : ℕ
  pub height : ℕ
  pub modifier : ℕ

pub data SpaDataType : Type 0 where
  mem_ptr mem_fd dma_buf other_data : SpaDataType

-- `spa_data`, with its chunk.
pub record SpaData : Type 0 where
  pub type : SpaDataType
  pub fd : ℤ
  pub maxsize : ℕ
  pub data_pointer : ℕ
  pub offset : ℕ
  pub size : ℕ
  pub stride : ℤ

-- `pw_buffer`: its address, the time in its header, `datas[0]` and the other datas.
pub record PwBuffer : Type 0 where
  pub address : ℕ
  pub header_pts : Option ℤ
  pub first_data : SpaData
  pub other_datas : List SpaData

-- The closure that `on_frame_done` holds: a recycler, null where there was none, and a buffer.
pub record FrameDone : Type 0 where
  pub recycler : Option ℕ
  pub buffer : ℕ

pub record DmaBufPlane : Type 0 where
  pub offset : ℕ
  pub pitch : ℕ

pub record DmaBufFrame : Type 0 where
  pub width : ℕ
  pub height : ℕ
  pub pts : ℤ
  pub drm_format : DrmFormat
  pub fd : ℤ
  pub total_size : ℕ
  pub modifier : ℕ
  pub plane_count : ℕ
  pub planes : List DmaBufPlane

pub record MemoryFrame : Type 0 where
  pub width : ℕ
  pub height : ℕ
  pub pts : ℤ
  pub format : PixelFormat
  pub memory : ℕ
  pub stride : ℕ
  pub size : ℕ
  pub offset : ℕ

-- `static_cast<std::size_t>` of an `int32_t`.
to_size : ℤ → ℕ
to_size (pos n) = n
to_size (negsuc n) = 2 ^ 64 - 1 - n

-- The array of `n` planes, filled in from the datas.
unfoldable pub planes_of : ℕ → List SpaData → List DmaBufPlane
unfolding to_size
planes_of zero datas = []
planes_of (suc n) [] = record { offset = 0; pitch = 0 } ∷ planes_of n []
planes_of (suc n) (d ∷ datas) =
    record { offset = d.offset; pitch = to_size d.stride } ∷ planes_of n datas

pub dma_buf_frame : VideoInfo → ℤ → PwBuffer → DmaBufFrame
unfolding spa_to_drm_format planes_of
dma_buf_frame format pts b = record {
  width = format.width;
  height = format.height;
  pts = pts;
  drm_format = spa_to_drm_format format.format;
  fd = b.first_data.fd;
  total_size = b.first_data.maxsize;
  modifier = format.modifier;
  plane_count = min (length (b.first_data ∷ b.other_datas)) 4;
  planes = planes_of 4 (b.first_data ∷ b.other_datas);
}

pub memory_frame : VideoInfo → ℤ → PwBuffer → MemoryFrame
unfolding spa_to_pixel_format to_size
memory_frame format pts b = record {
  width = format.width;
  height = format.height;
  pts = pts;
  format = spa_to_pixel_format format.format;
  memory = b.first_data.data_pointer;
  stride = to_size b.first_data.stride;
  size = b.first_data.size;
  offset = b.first_data.offset;
}

pub data FrameBody : Type 0 where
  dma_body : DmaBufFrame → FrameBody
  memory_body : MemoryFrame → FrameBody

-- A frame that a client holds: its fields, and its `on_frame_done`.
pub record Frame : Type 0 where
  pub body : FrameBody
  pub on_frame_done : FrameDone
