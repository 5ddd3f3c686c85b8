-- ===== src/Tests/JobCodec.antt =====
-- A codec that reads every job back: a job is the text of its fields, one after the other.
use Prim.Native.String.{String}
use vshift.Base.{◌≡◌, refl, ap, ◌∙◌, ℕ, zero, suc, Bool, Option, List, [], ◌∷◌, ℤ, length}
use vshift.Profile.{
  VideoProfile, AudioTrack, SubtitleTrack, VshiftProfile, VideoEncoder, FrameRateType,
  FramerateMode, QualityMode, AudioSelectionMode, SubtitleSelectionMode,
}
use vshift.Job.{JobState, TranscodeJob}
use vshift.Tests.Choices.{
  encoder, rate_type, rate_mode, quality_mode, audio_mode, subtitle_mode, state,
}
use vshift.Tests.Serial.{Serial, nat, text, flag, integer, option, via, ◌⊗◌}

-- The number of items, and then each of them.
module _ {A : Type 0} (S : Serial A) where
  write_items : List A → String → String
  write_items [] rest = rest
  write_items (x ∷ xs) rest = S.write x (write_items xs rest)

  read_items : ℕ → String → List A × String
  read_items zero s = ([], s)
  read_items (suc n) s = let (x, r) = S.read s in let (xs, rest) = read_items n r in (x ∷ xs, rest)

  read_items-write_items :
      (xs : List A) (rest : String) → read_items (length xs) (write_items xs rest) ≡ (xs, rest)
  unfolding read_items write_items
  read_items-write_items [] rest = refl
  read_items-write_items (x ∷ xs) rest =
      ap
        (λ (p : A × String). (p.0 ∷ (read_items (length xs) p.1).0, (read_items (length xs) p.1).1))
        (S.read-write x (write_items xs rest))
      ∙ ap (λ (p : List A × String). (x ∷ p.0, p.1)) (read_items-write_items xs rest)

  list : Serial (List A)
  list = record {
    write = λ xs rest. nat.write (length xs) (write_items xs rest);
    read = λ s. let (n, r) = nat.read s in read_items n r;
    read-write = λ xs rest.
        ap (λ (p : ℕ × String). read_items p.0 p.1)
          (nat.read-write (length xs) (write_items xs rest))
        ∙ read_items-write_items xs rest;
  }

video_profile_parts :
    VideoProfile
    → String
      × (VideoEncoder
          × (String
              × (ℕ
                  × (FrameRateType
                      × (Option ℤ
                          × (FramerateMode
                              × (Option ℤ
                                  × (Option ℤ
                                      × (QualityMode
                                          × (ℤ
                                              × (Option ℤ
                                                  × (String
                                                      × (String
                                                          × (String
                                                            × (String
                                                            × (Bool × (Bool × Bool)))))))))))))))))
video_profile_parts x = (
  x.codec,
  (
    x.encoder,
    (
      x.color_space,
      (
        x.bit_depth,
        (
          x.frame_rate_type,
          (
            x.frame_rate,
            (
              x.framerate_mode,
              (
                x.width,
                (
                  x.height,
                  (
                    x.quality_mode,
                    (
                      x.quality,
                      (
                        x.average_bitrate,
                        (
                          x.encoder_preset,
                          (
                            x.encoder_tune,
                            (
                              x.encoder_profile,
                              (x.encoder_level, (x.multi_pass, (x.turbo_multi_pass, x.grayscale))),
                            ),
                          ),
                        ),
                      ),
                    ),
                  ),
                ),
              ),
            ),
          ),
        ),
      ),
    ),
  ),
)

video_profile_of :
    String
      × (VideoEncoder
          × (String
              × (ℕ
                  × (FrameRateType
                      × (Option ℤ
                          × (FramerateMode
                              × (Option ℤ
                                  × (Option ℤ
                                      × (QualityMode
                                          × (ℤ
                                              × (Option ℤ
                                                  × (String
                                                      × (String
                                                          × (String
                                                            × (String
                                                            × (Bool × (Bool × Bool)))))))))))))))))
    → VideoProfile
video_profile_of
      (
        codec,
        (
          encoder,
          (
            color_space,
            (
              bit_depth,
              (
                frame_rate_type,
                (
                  frame_rate,
                  (
                    framerate_mode,
                    (
                      width,
                      (
                        height,
                        (
                          quality_mode,
                          (
                            quality,
                            (
                              average_bitrate,
                              (
                                encoder_preset,
                                (
                                  encoder_tune,
                                  (
                                    encoder_profile,
                                    (encoder_level, (multi_pass, (turbo_multi_pass, grayscale))),
                                  ),
                                ),
                              ),
                            ),
                          ),
                        ),
                      ),
                    ),
                  ),
                ),
              ),
            ),
          ),
        ),
      ) =
    record {
      codec = codec;
      encoder = encoder;
      color_space = color_space;
      bit_depth = bit_depth;
      frame_rate_type = frame_rate_type;
      frame_rate = frame_rate;
      framerate_mode = framerate_mode;
      width = width;
      height = height;
      quality_mode = quality_mode;
      quality = quality;
      average_bitrate = average_bitrate;
      encoder_preset = encoder_preset;
      encoder_tune = encoder_tune;
      encoder_profile = encoder_profile;
      encoder_level = encoder_level;
      multi_pass = multi_pass;
      turbo_multi_pass = turbo_multi_pass;
      grayscale = grayscale;
    }

video_profile-back : (x : VideoProfile) → video_profile_of (video_profile_parts x) ≡ x
unfolding video_profile_of video_profile_parts
video_profile-back x = refl

video_profile : Serial VideoProfile
video_profile = via video_profile_parts video_profile_of video_profile-back (
    text
    ⊗ encoder
    ⊗ text
    ⊗ nat
    ⊗ rate_type
    ⊗ (option integer)
    ⊗ rate_mode
    ⊗ (option integer)
    ⊗ (option integer)
    ⊗ quality_mode
    ⊗ integer
    ⊗ (option integer)
    ⊗ text
    ⊗ text
    ⊗ text
    ⊗ text
    ⊗ flag
    ⊗ flag
    ⊗ flag)

audio_track_parts : AudioTrack → String × (ℤ × (Option ℤ × (String × Bool)))
audio_track_parts x = (x.codec, (x.bit_rate, (x.sample_rate, (x.mixdown, x.copy_track))))

audio_track_of : String × (ℤ × (Option ℤ × (String × Bool))) → AudioTrack
audio_track_of (codec, (bit_rate, (sample_rate, (mixdown, copy_track)))) = record {
  codec = codec;
  bit_rate = bit_rate;
  sample_rate = sample_rate;
  mixdown = mixdown;
  copy_track = copy_track;
}

audio_track-back : (x : AudioTrack) → audio_track_of (audio_track_parts x) ≡ x
unfolding audio_track_of audio_track_parts
audio_track-back x = refl

audio_track : Serial AudioTrack
audio_track =
    via audio_track_parts audio_track_of audio_track-back
      (text ⊗ integer ⊗ (option integer) ⊗ text ⊗ flag)

subtitle_track_parts : SubtitleTrack → String × (String × (Bool × (Bool × Bool)))
subtitle_track_parts x = (x.language, (x.codec, (x.copy_track, (x.burn_in, x.is_default))))

subtitle_track_of : String × (String × (Bool × (Bool × Bool))) → SubtitleTrack
subtitle_track_of (language, (codec, (copy_track, (burn_in, is_default)))) = record {
  language = language;
  codec = codec;
  copy_track = copy_track;
  burn_in = burn_in;
  is_default = is_default;
}

subtitle_track-back : (x : SubtitleTrack) → subtitle_track_of (subtitle_track_parts x) ≡ x
unfolding subtitle_track_of subtitle_track_parts
subtitle_track-back x = refl

subtitle_track : Serial SubtitleTrack
subtitle_track =
    via subtitle_track_parts subtitle_track_of subtitle_track-back
      (text ⊗ text ⊗ flag ⊗ flag ⊗ flag)

profile_parts :
    VshiftProfile
    → String
      × (String
          × (String
              × (VideoProfile
                  × (List AudioTrack
                      × (AudioSelectionMode
                          × (List String
                              × (Bool
                                  × (List SubtitleTrack
                                      × (SubtitleSelectionMode
                                          × (List String × (Bool × (Bool × Bool))))))))))))
profile_parts x = (
  x.name,
  (
    x.description,
    (
      x.format,
      (
        x.video,
        (
          x.audio_tracks,
          (
            x.audio_selection_mode,
            (
              x.audio_language_list,
              (
                x.audio_passthrough,
                (
                  x.subtitle_tracks,
                  (
                    x.subtitle_selection_mode,
                    (
                      x.subtitle_language_list,
                      (x.subtitle_passthrough, (x.chapter_markers, x.optimize)),
                    ),
                  ),
                ),
              ),
            ),
          ),
        ),
      ),
    ),
  ),
)

profile_of :
    String
      × (String
          × (String
              × (VideoProfile
                  × (List AudioTrack
                      × (AudioSelectionMode
                          × (List String
                              × (Bool
                                  × (List SubtitleTrack
                                      × (SubtitleSelectionMode
                                          × (List String × (Bool × (Bool × Bool))))))))))))
    → VshiftProfile
profile_of
      (
        name,
        (
          description,
          (
            format,
            (
              video,
              (
                audio_tracks,
                (
                  audio_selection_mode,
                  (
                    audio_language_list,
                    (
                      audio_passthrough,
                      (
                        subtitle_tracks,
                        (
                          subtitle_selection_mode,
                          (
                            subtitle_language_list,
                            (subtitle_passthrough, (chapter_markers, optimize)),
                          ),
                        ),
                      ),
                    ),
                  ),
                ),
              ),
            ),
          ),
        ),
      ) =
    record {
      name = name;
      description = description;
      format = format;
      video = video;
      audio_tracks = audio_tracks;
      audio_selection_mode = audio_selection_mode;
      audio_language_list = audio_language_list;
      audio_passthrough = audio_passthrough;
      subtitle_tracks = subtitle_tracks;
      subtitle_selection_mode = subtitle_selection_mode;
      subtitle_language_list = subtitle_language_list;
      subtitle_passthrough = subtitle_passthrough;
      chapter_markers = chapter_markers;
      optimize = optimize;
    }

profile-back : (x : VshiftProfile) → profile_of (profile_parts x) ≡ x
unfolding profile_of profile_parts
profile-back x = refl

profile : Serial VshiftProfile
profile = via profile_parts profile_of profile-back (
    text
    ⊗ text
    ⊗ text
    ⊗ video_profile
    ⊗ (list audio_track)
    ⊗ audio_mode
    ⊗ (list text)
    ⊗ flag
    ⊗ (list subtitle_track)
    ⊗ subtitle_mode
    ⊗ (list text)
    ⊗ flag
    ⊗ flag
    ⊗ flag)

transcode_job_parts :
    TranscodeJob
    → ℕ
      × (List String
          × (List String
              × (String
                  × (VshiftProfile
                      × (JobState
                          × (Option ℕ
                              × (ℕ
                                  × (Option ℕ
                                      × (Option ℕ
                                          × (Option ℕ × (ℕ × (Option String × String))))))))))))
transcode_job_parts x = (
  x.id,
  (
    x.input_path,
    (
      x.output_path,
      (
        x.profile_name,
        (
          x.profile_snapshot,
          (
            x.state,
            (
              x.worker_id,
              (
                x.created_at,
                (
                  x.claimed_at,
                  (x.started_at, (x.completed_at, (x.attempt, (x.error_message, x.match_rule_id)))),
                ),
              ),
            ),
          ),
        ),
      ),
    ),
  ),
)

transcode_job_of :
    ℕ
      × (List String
          × (List String
              × (String
                  × (VshiftProfile
                      × (JobState
                          × (Option ℕ
                              × (ℕ
                                  × (Option ℕ
                                      × (Option ℕ
                                          × (Option ℕ × (ℕ × (Option String × String))))))))))))
    → TranscodeJob
transcode_job_of
      (
        id,
        (
          input_path,
          (
            output_path,
            (
              profile_name,
              (
                profile_snapshot,
                (
                  state,
                  (
                    worker_id,
                    (
                      created_at,
                      (
                        claimed_at,
                        (started_at, (completed_at, (attempt, (error_message, match_rule_id)))),
                      ),
                    ),
                  ),
                ),
              ),
            ),
          ),
        ),
      ) =
    record {
      id = id;
      input_path = input_path;
      output_path = output_path;
      profile_name = profile_name;
      profile_snapshot = profile_snapshot;
      state = state;
      worker_id = worker_id;
      created_at = created_at;
      claimed_at = claimed_at;
      started_at = started_at;
      completed_at = completed_at;
      attempt = attempt;
      error_message = error_message;
      match_rule_id = match_rule_id;
    }

transcode_job-back : (x : TranscodeJob) → transcode_job_of (transcode_job_parts x) ≡ x
unfolding transcode_job_of transcode_job_parts
transcode_job-back x = refl

pub transcode_job : Serial TranscodeJob
transcode_job = via transcode_job_parts transcode_job_of transcode_job-back (
    nat
    ⊗ (list text)
    ⊗ (list text)
    ⊗ text
    ⊗ profile
    ⊗ state
    ⊗ (option nat)
    ⊗ nat
    ⊗ (option nat)
    ⊗ (option nat)
    ⊗ (option nat)
    ⊗ nat
    ⊗ (option text)
    ⊗ text)
